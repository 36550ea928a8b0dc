-- ===== src/Learner/Votes.antt =====
-- What stands behind a delivered value of lib/learner.c: learn messages of a quorum of acceptors,
-- all of one ballot. `Heard` is any property of the learn messages that reach the learner, such as
-- that an acceptor has sent them.
use mathlib.Core.Option.{some-injective}
use libfastpaxos.Base.{
  ℕ, zero, suc, ◌≡◌, refl, ◌∙◌, sym, ap, subst, Bool, true, not, inl, inr, List, [], ◌∷◌, Option,
  some, leb, leb→le, if◌then◌else◌, update_self, update_all, Bool-cases, Option-cases, All,
  All-append,
}
use libfastpaxos.Base.Int.{ℤ, ◌<ℤ◌, eqb_ℤ, eqb→eq, ltb_ℤ}
use libfastpaxos.Config.{get_lea_index, quorum}
use libfastpaxos.Message.{
  LearnMsg, PaxosMsg, learn, prepare_batch, accept, learner_sync, promise_batch, anyval,
  unknown_type,
}
use libfastpaxos.Learner.{
  Learner, LearnerRecord, deliver, deliver_fuel, deliver_values, put_record, close_record,
  count_learns, init, see, copy_learn, check_quorum, close_and_deliver, handle_learn_msg,
  handle_learner_msg, handle_all,
}
use libfastpaxos.Learner.Update.{Stored, update_record-cases}
use libfastpaxos.Learner.Window.{Inv, next_iid, next_closed, deliver-Inv}
use libfastpaxos.Learner.Handle.{
  IsSettled, window_top, see-IsSettled, put_open, closed-Inv, handle_learner_msg-Settles,
  init-IsSettled,
}
use libfastpaxos.Learner.Evidence.{Backed, pending, IsHonest, IsSound, put-IsSound, Stored-IsHonest}

module _ (Heard : LearnMsg → Type 0) where
  -- One delivery logs a value that is backed.
  deliver-IsSound :
      (l : Learner) (top : ℤ) (v : List ℕ)
      → IsSound Heard l
      → Inv l top
      → (l.learner_array (get_lea_index (next_iid l))).final_value ≡ some v
      → IsSound Heard (deliver l (next_iid l) v)
  deliver-IsSound l top v s inv e = record {
    records =
        update_all (λ k r. IsHonest Heard r) l.learner_array (get_lea_index (next_iid l)) _
          (record { stored = rec_ok.stored; backed = λ u h. absurd (cc) }) (λ k _. s.records k);
    log = All-append (Backed Heard) l.delivered _ s.log (
      subst (λ i. Backed Heard (pending rec i v)) (next_closed l top v inv e) (rec_ok.backed v e),
      tt,
    );
  }
    where
      rec : LearnerRecord
      rec = l.learner_array (get_lea_index (next_iid l))

      rec_ok : IsHonest Heard rec
      rec_ok = s.records (get_lea_index (next_iid l))

  -- Whatever the step returns is sound.
  abbrev pub Keeps : Option Learner → Type 0
  Keeps r = (l' : Learner) → r ≡ some l' → IsSound Heard l'

  Keeps-some : (l : Learner) → IsSound Heard l → Keeps (some l)
  Keeps-some l s l' e = subst (IsSound Heard) (some-injective _ _ e) s

  deliver_values-Keeps :
      (fuel : ℕ) (l : Learner) (top : ℤ)
      → IsSound Heard l
      → Inv l top
      → Keeps (deliver_values fuel l (next_iid l))
  unfolding deliver_values
  deliver_values-Keeps zero l top s inv = λ l' e. absurd (cc)
  deliver_values-Keeps (suc fuel) l top s inv =
      elim (Option-cases (l.learner_array (get_lea_index (next_iid l))).final_value) [
        | inl e ↦ rw (e, deliver_values) (Keeps-some l s)
        | inr (v, e) ↦
            rw (e, deliver_values)
              (deliver_values-Keeps fuel (deliver l (next_iid l) v) top
                (deliver-IsSound l top v s inv e) (deliver-Inv l top v inv e))
      ]

  module _ (l : Learner) (m : LearnMsg) (s : IsSound Heard l) (heard : Heard (copy_learn m)) where
    -- A record that a quorum has voted for is closed with a backed value.
    close_record-IsHonest :
        (l.learner_array (get_lea_index m.iid)).iid ≡ m.iid
        → leb quorum (count_learns (l.learner_array (get_lea_index m.iid)).learns m.ballot) ≡ true
        → IsHonest Heard (close_record (l.learner_array (get_lea_index m.iid)) m)
    close_record-IsHonest same enough = record {
      stored = (s.records (get_lea_index m.iid)).stored;
      backed = λ v e. record {
        msg = copy_learn m;
        heard = heard;
        msg_iid = sym same;
        msg_ballot = refl;
        msg_proposer = refl;
        msg_value = some-injective _ _ e;
        msg_size = refl;
        votes = (l.learner_array (get_lea_index m.iid)).learns;
        cast = (s.records (get_lea_index m.iid)).stored;
        enough = leb→le enough;
      };
    }

    close_and_deliver-Keeps :
        IsSettled l
        → (l.learner_array (get_lea_index m.iid)).iid ≡ m.iid
        → l.highest_delivered <ℤ m.iid
        → m.iid <ℤ window_top l
        → Keeps (close_and_deliver l m)
    unfolding close_and_deliver check_quorum
    close_and_deliver-Keeps settled same late soon =
        elim (Bool-cases (leb quorum (count_learns slot.learns m.ballot))) [
          | inr few ↦ rw few (Keeps-some l s)
          | inl enough ↦
              let l' = put_record l (get_lea_index m.iid) (close_record slot m) in
              let s' =
                put-IsSound Heard l (get_lea_index m.iid) (close_record slot m) s
                  (close_record-IsHonest same enough) in
              elim (Bool-cases (eqb_ℤ m.iid (next_iid l))) [
                | inr later ↦ rw (enough, later) (Keeps-some l' s')
                | inl next ↦
                    rw (enough, next)
                      (subst (λ i. Keeps (deliver_values deliver_fuel l' i))
                        (sym (eqb→eq m.iid (next_iid l) next))
                        (deliver_values-Keeps deliver_fuel l' (window_top l) s'
                          (closed-Inv l m settled same late soon)))
              ]
        ]
      where
        slot : LearnerRecord
        slot = l.learner_array (get_lea_index m.iid)

  see-IsSound : (l : Learner) (m : LearnMsg) → IsSound Heard l → IsSound Heard (see l m)
  see-IsSound l m s = elim (Bool-cases (ltb_ℤ l.highest_seen m.iid)) [
    | inl e ↦ rw e (record { records = s.records; log = s.log })
    | inr e ↦ rw e s
  ]

  Stored-Keeps :
      (l : Learner) (m : LearnMsg) (r : Bool) (l' : Learner)
      → IsSettled l
      → IsSound Heard l
      → Heard (copy_learn m)
      → Stored l m r l'
      → Keeps (if not r then some l' else close_and_deliver l' m)
  Stored-Keeps l m r l' settled s heard st =
      subst (λ k. Keeps (if not r then some k else close_and_deliver k m)) (sym st.put)
        (elim (Bool-cases r) [
          | inl e ↦ rw e (
              close_and_deliver-Keeps k m k_ok heard
                (put_open l (get_lea_index m.iid) st.rec settled st.open_still) same st.late
                st.soon)
          | inr e ↦ rw e (Keeps-some k k_ok)
        ])
    where
      k : Learner
      k = put_record l (get_lea_index m.iid) st.rec

      k_ok : IsSound Heard k
      k_ok =
          put-IsSound Heard l (get_lea_index m.iid) st.rec s
            (Stored-IsHonest Heard l m r l' s heard st)

      same : (k.learner_array (get_lea_index m.iid)).iid ≡ m.iid
      same = ap (λ r. r.iid) (update_self l.learner_array (get_lea_index m.iid) st.rec) ∙ st.iid

  handle_learn_msg-Keeps :
      (l : Learner) (m : LearnMsg)
      → IsSettled l
      → IsSound Heard l
      → Heard (copy_learn m)
      → Keeps (handle_learn_msg l m)
  unfolding handle_learn_msg
  handle_learn_msg-Keeps l m settled s heard = elim (update_record-cases (see l m) m) [
    | inl e ↦ rw e (Keeps-some (see l m) (see-IsSound l m s))
    | inr st ↦ Stored-Keeps (see l m) m _ _ (see-IsSettled l m settled) (see-IsSound l m s) heard st
  ]

  -- A learn message has `Heard`; the learner ignores all others.
  abbrev pub IsHeard : PaxosMsg → Type 0
  IsHeard (learn m) = Heard (copy_learn m)
  IsHeard _ = Unit {0}

  pub handle_learner_msg-Keeps :
      (l : Learner) (m : PaxosMsg)
      → IsSettled l
      → IsSound Heard l
      → IsHeard m
      → Keeps (handle_learner_msg l m)
  unfolding handle_learner_msg
  handle_learner_msg-Keeps l (learn m) settled s h = handle_learn_msg-Keeps l m settled s h
  handle_learner_msg-Keeps l (prepare_batch _) settled s h = Keeps-some l s
  handle_learner_msg-Keeps l (accept _) settled s h = Keeps-some l s
  handle_learner_msg-Keeps l (learner_sync _) settled s h = Keeps-some l s
  handle_learner_msg-Keeps l (promise_batch _ _) settled s h = Keeps-some l s
  handle_learner_msg-Keeps l (anyval _ _) settled s h = Keeps-some l s
  handle_learner_msg-Keeps l (unknown_type _) settled s h = Keeps-some l s

  handle_all-Keeps :
      (ms : List PaxosMsg) (l : Learner)
      → IsSettled l
      → IsSound Heard l
      → All IsHeard ms
      → Keeps (handle_all l ms)
  unfolding handle_all
  handle_all-Keeps [] l settled s h = Keeps-some l s
  handle_all-Keeps (m ∷ ms) l settled s h =
      let (l', e, settled') = handle_learner_msg-Settles l m settled in
      rw (e, handle_all)
        (handle_all-Keeps ms l' settled' (handle_learner_msg-Keeps l m settled s h.0 l' e) h.1)

  pub init-IsSound : IsSound Heard init
  unfolding init
  init-IsSound = record {
    records = λ k. record { stored = λ a m e. absurd (cc); backed = λ v e. absurd (cc) };
    log = tt;
  }

  -- Every value that a learner has delivered, after any run from its start, is the value of a learn
  -- message that it received, and for the same instance and the same ballot it received learn
  -- messages from a quorum of different acceptors.
  pub delivered-Backed :
      (ms : List PaxosMsg) (l : Learner)
      → All IsHeard ms
      → handle_all init ms ≡ some l
      → All (Backed Heard) l.delivered
  delivered-Backed ms l h e = (handle_all-Keeps ms init init-IsSettled init-IsSound h l e).log
