-- ===== src/Learner/Handle.antt =====
-- `learner_handle_learn_msg` of lib/learner.c keeps the window, always returns, and leaves nothing
-- to deliver; so it does through any run from the start.
use libfastpaxos.Base.{
  ℕ, ◌≡◌, refl, ◌∙◌, sym, ap, subst, Bool, not, inl, inr, ◌≢◌, List, [], ◌∷◌, Option, none, some,
  arith, leb, if◌then◌else◌, update_self, update_all, Bool-cases,
}
use libfastpaxos.Base.Int.{
  ℤ, pos, minus_one, ◌+ℤ◌, ◌≤ℤ◌, ◌<ℤ◌, ltb_ℤ, eqb_ℤ, eqb→eq, ne_of_eqb, int_laws,
}
use libfastpaxos.Config.{get_lea_index, quorum}
use libfastpaxos.Message.{
  LearnMsg, PaxosMsg, learn, prepare_batch, accept, learner_sync, promise_batch, anyval,
  unknown_type,
}
use libfastpaxos.Learner.{
  Learner, LearnerRecord, deliver_fuel, deliver_values, put_record, close_record, count_learns,
  init, see, check_quorum, close_and_deliver, handle_learn_msg, handle_learner_msg, handle_all,
}
use libfastpaxos.Learner.Update.{Stored, update_record-cases}
use libfastpaxos.Learner.Window.{
  Consecutive, Inv, IsIdle, Within, next_iid, same_index, Drained, deliver_values-Drained,
}

abbrev pub window_top : Learner → ℤ
window_top l = l.highest_delivered +ℤ pos 512

-- Between two messages: the invariant of the window at its full width, and nothing to deliver.
pub record IsSettled (l : Learner) : Type 0 where
  pub inv : Inv l (window_top l)
  pub idle : IsIdle l

-- A wider window will do.
widen : (l : Learner) (top top' : ℤ) → Inv l top → top ≤ℤ top' → top' ≤ℤ window_top l → Inv l top'
widen l top top' inv h k = record {
  started = inv.started;
  ahead = omega (arith, inv.ahead);
  narrow = k;
  window = λ i v e. let w = inv.window i v e in (w.0, omega (arith, w.1), w.2);
  in_order = inv.in_order;
}

Drained-IsSettled :
    (top : ℤ) (r : Option Learner) → Drained top r → (l' : Learner) × (r ≡ some l') × IsSettled l'
Drained-IsSettled top r (l', e, inv, idle) =
    (l', e, record { inv = widen l' top (window_top l') inv inv.narrow (omega arith); idle = idle })

-- Writing a record at the message's index that says nothing wrong of the window.
put-Inv :
    (l : Learner) (top : ℤ) (i : ℕ) (rec : LearnerRecord)
    → Inv l top
    → Within l.highest_delivered top i rec
    → Inv (put_record l i rec) top
put-Inv l top i rec inv w = record {
  started = inv.started;
  ahead = inv.ahead;
  narrow = inv.narrow;
  window =
      update_all (Within l.highest_delivered top) l.learner_array i rec w (λ k _. inv.window k);
  in_order = inv.in_order;
}

-- `update_record` opens no window and closes no record.
pub put_open :
    (l : Learner) (i : ℕ) (rec : LearnerRecord)
    → IsSettled l
    → rec.final_value ≡ none
    → IsSettled (put_record l i rec)
put_open l i rec s o = record {
  inv = put-Inv l (window_top l) i rec s.inv (λ v e. absurd (cc));
  idle = ground (arith, s.idle);
}

-- A step that returns, settled.
abbrev pub Settles : Option Learner → Type 0
Settles r = (l' : Learner) × (r ≡ some l') × IsSettled l'

module _ (l : Learner) (m : LearnMsg) (s : IsSettled l) where
  abbrev pub index : ℕ
  index = get_lea_index m.iid

  -- The record that `check_quorum` closes is that of the message's instance, in the window.
  module _ (same : (l.learner_array index).iid ≡ m.iid) (late : l.highest_delivered <ℤ m.iid)
      (soon : m.iid <ℤ window_top l) where
    abbrev pub closed : Learner
    closed = put_record l index (close_record (l.learner_array index) m)

    pub closed-Inv : Inv closed (window_top l)
    closed-Inv =
        put-Inv l (window_top l) index (close_record (l.learner_array index) m) s.inv
          (λ v e. rw same (late, soon, refl))

    closed-IsIdle : m.iid ≢ next_iid l → IsIdle closed
    closed-IsIdle other =
        let apart = λ (e : index ≡ get_lea_index (next_iid l)). other (
          same_index l (window_top l) m.iid (next_iid l) s.inv late (omega int_laws) soon
            (omega int_laws) e) in
        ground (arith, apart, s.idle)

    close_and_deliver-Settles : Settles (close_and_deliver l m)
    unfolding close_and_deliver check_quorum
    close_and_deliver-Settles =
        elim (Bool-cases (leb quorum (count_learns (l.learner_array index).learns m.ballot))) [
          | inr few ↦ rw few (l, refl, s)
          | inl enough ↦ elim (Bool-cases (eqb_ℤ m.iid (next_iid l))) [
            | inl next ↦
                rw (enough, next)
                  (Drained-IsSettled (window_top l) (deliver_values deliver_fuel closed m.iid) (
                    subst (λ i. Drained (window_top l) (deliver_values deliver_fuel closed i))
                      (sym (eqb→eq m.iid (next_iid l) next))
                      (deliver_values-Drained deliver_fuel closed (window_top l) closed-Inv
                        (omega arith))))
            | inr later ↦
                rw (enough, later)
                  (
                    closed,
                    refl,
                    record {
                      inv = closed-Inv;
                      idle = closed-IsIdle (λ e. ne_of_eqb m.iid (next_iid l) later e);
                    },
                  )
          ]
        ]

pub see-IsSettled : (l : Learner) (m : LearnMsg) → IsSettled l → IsSettled (see l m)
see-IsSettled l m s = elim (Bool-cases (ltb_ℤ l.highest_seen m.iid)) [
  | inl e ↦ rw e (record {
    inv = record {
      started = s.inv.started;
      ahead = s.inv.ahead;
      narrow = s.inv.narrow;
      window = s.inv.window;
      in_order = s.inv.in_order;
    };
    idle = s.idle;
  })
  | inr e ↦ rw e s
]

Stored-Settles :
    (l : Learner) (m : LearnMsg) (r : Bool) (l' : Learner)
    → IsSettled l
    → Stored l m r l'
    → Settles (if not r then some l' else close_and_deliver l' m)
Stored-Settles l m r l' s st =
    subst (λ k. Settles (if not r then some k else close_and_deliver k m)) (sym st.put)
      (elim (Bool-cases r) [
        | inl e ↦ rw e (close_and_deliver-Settles k m settled same st.late st.soon)
        | inr e ↦ rw e (k, refl, settled)
      ])
  where
    k : Learner
    k = put_record l (get_lea_index m.iid) st.rec

    settled : IsSettled k
    settled = put_open l (get_lea_index m.iid) st.rec s st.open_still

    same : (k.learner_array (get_lea_index m.iid)).iid ≡ m.iid
    same = ap (λ r. r.iid) (update_self l.learner_array (get_lea_index m.iid) st.rec) ∙ st.iid

-- A learn message is handled in full: the loop ends, and nothing is left to deliver.
pub handle_learn_msg-Settles :
    (l : Learner) (m : LearnMsg) → IsSettled l → Settles (handle_learn_msg l m)
unfolding handle_learn_msg
handle_learn_msg-Settles l m s =
    let s' = see-IsSettled l m s in
    elim (update_record-cases (see l m) m) [
      | inl e ↦ rw e (see l m, refl, s')
      | inr st ↦ Stored-Settles (see l m) m _ _ s' st
    ]

pub handle_learner_msg-Settles :
    (l : Learner) (m : PaxosMsg) → IsSettled l → Settles (handle_learner_msg l m)
unfolding handle_learner_msg
handle_learner_msg-Settles l (learn m) s = handle_learn_msg-Settles l m s
handle_learner_msg-Settles l (prepare_batch _) s = (l, refl, s)
handle_learner_msg-Settles l (accept _) s = (l, refl, s)
handle_learner_msg-Settles l (learner_sync _) s = (l, refl, s)
handle_learner_msg-Settles l (promise_batch _ _) s = (l, refl, s)
handle_learner_msg-Settles l (anyval _ _) s = (l, refl, s)
handle_learner_msg-Settles l (unknown_type _) s = (l, refl, s)

handle_all-Settles : (ms : List PaxosMsg) (l : Learner) → IsSettled l → Settles (handle_all l ms)
unfolding handle_all
handle_all-Settles [] l s = (l, refl, s)
handle_all-Settles (m ∷ ms) l s =
    let (l', e, s') = handle_learner_msg-Settles l m s in
    rw (e, handle_all) (handle_all-Settles ms l' s')

pub init-IsSettled : IsSettled init
unfolding init
init-IsSettled = record {
  inv = record {
    started = omega arith;
    ahead = omega int_laws;
    narrow = omega int_laws;
    window = λ k v e. absurd (cc);
    in_order = refl;
  };
  idle = refl;
}

-- Whatever messages a learner reads from its start, in whatever order, it handles them all (each
-- loop of `deliver_values` ends by itself), it has then called `delfun` for the instances 0, 1, 2, …
-- up to `highest_delivered`, each once and in this order, and the record at the index of the next
-- instance is not closed, so nothing that could be delivered is held back.
pub handle_all_in_order :
    (ms : List PaxosMsg)
    → (l : Learner) × (handle_all init ms ≡ some l)
      × Consecutive minus_one l.delivered l.highest_delivered
      × IsIdle l
handle_all_in_order ms =
    let (l, e, s) = handle_all-Settles ms init init-IsSettled in (l, e, s.inv.in_order, s.idle)
