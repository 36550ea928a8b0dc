-- ===== src/Leader/Reached.antt =====
-- Every state that the handlers of lib/leader.c reach counts its promises right.
use libfastpaxos.Base.{
  ℕ, zero, suc, ◌≤◌, ◌≡◌, refl, subst, Bool, true, false, List, [], ◌∷◌, Option, none, some, arith,
  Bool-cases, inl, inr, if◌then◌else◌, update,
}
use libfastpaxos.Base.Int.{ℤ, pos, minus_one, ◌+ℤ◌, ◌≤ℤ◌, ◌<ℤ◌, eqb_ℤ, ltb_ℤ}
use libfastpaxos.Config.{n_of_acceptors, quorum, get_pro_index, ballot_next}
use libfastpaxos.Message.{PromiseMsg}
use libfastpaxos.Leader.State.{
  p1_ready, p1_finished, is_ready, is_finished, PromiseInfo, ProposerRecord, Leader, Phase1Info,
  leader_deliver_value, rounds_between, new_batch, new_anymsg,
}
use libfastpaxos.Leader.Phase1.{phase1_check_cb, handle_promise, leader_init, leader_start}
use libfastpaxos.Leader.Phase2.{
  phase2_value, send_accept, offer_any, finish, phase2_instance, phase2_instances, execute_phase2,
  handle_promises, first_of, last_of, leader_handle_promise_msg, restarted, recount,
  phase2_check_cb,
}
use libfastpaxos.Leader.Counts.{CountedAs, count_kept, ready_eq, restart_counted}
use libfastpaxos.Leader.Quorate.{
  IsQuorate, SameCounts, same_counts, put-IsQuorate, add_prepare-SameCounts,
  append_anymsg-SameCounts, flush_anymsg-SameCounts, execute_phase1-IsQuorate,
  phase1_check-IsQuorate,
}
use libfastpaxos.Leader.Promised.{AfterPromise, AfterHandler, handle_promise-IsQuorate}

offer_any-SameCounts :
    (st : Leader) (rec : ProposerRecord) (i : ℤ) → SameCounts st (offer_any st rec i)
offer_any-SameCounts st rec i =
    append_anymsg-SameCounts
      (record st {
        any_ballot = if ltb_ℤ st.any_ballot rec.ballot then rec.ballot else st.any_ballot;
      })
      i

finish-IsQuorate :
    (st : Leader) (k : ℕ)
    → IsQuorate st
    → minus_one <ℤ (st.proposer_array k).iid
    → IsQuorate (finish st k)
finish-IsQuorate st k q h =
    put-IsQuorate st k (record (st.proposer_array k) { status = p1_finished }) st.p1info q h
      q.started

phase2_instance-IsQuorate : (st : Leader) (i : ℤ) → IsQuorate st → IsQuorate (phase2_instance st i)
unfolding phase2_instance send_accept
phase2_instance-IsQuorate st i q = elim (Bool-cases (is_ready rec.status)) [
  | inr idle ↦ rw idle q
  | inl ready ↦ rw ready (chosen (phase2_value rec) (ready_eq rec.status ready))
]
  where
    k : ℕ
    k = get_pro_index i

    rec : ProposerRecord
    rec = st.proposer_array k

    chosen :
        (o : Option PromiseInfo)
        → rec.status ≡ p1_ready
        → IsQuorate (elim o [
          | none ↦ finish (offer_any st rec i) k
          | some pi ↦ finish (send_accept st rec pi) k
        ])
    chosen none e =
        let s = offer_any-SameCounts st rec i in
        finish-IsQuorate (offer_any st rec i) k (same_counts st _ s q)
          (rw s.0 (subst (λ s. CountedAs s rec) e (q.counted k)).0)
    chosen (some pi) e =
        finish-IsQuorate (send_accept st rec pi) k (same_counts st _ (refl, refl) q)
          (subst (λ s. CountedAs s rec) e (q.counted k)).0

phase2_instances-IsQuorate :
    (n : ℕ) (i : ℤ) (st : Leader) → IsQuorate st → IsQuorate (phase2_instances n i st)
unfolding phase2_instances
phase2_instances-IsQuorate zero i st q = q
phase2_instances-IsQuorate (suc n) i st q =
    phase2_instances-IsQuorate n (i +ℤ pos 1) (phase2_instance st i)
      (phase2_instance-IsQuorate st i q)

execute_phase2-IsQuorate :
    (st : Leader) (first last : ℤ) → IsQuorate st → IsQuorate (execute_phase2 st first last)
unfolding execute_phase2
execute_phase2-IsQuorate st first last q =
    let st' = phase2_instances (rounds_between first last) first (new_anymsg st) in
    same_counts st' _ (flush_anymsg-SameCounts st' _ refl) (
      phase2_instances-IsQuorate (rounds_between first last) first (new_anymsg st)
        (same_counts st (new_anymsg st) (refl, refl) q))

handle_promises-IsQuorate :
    (id : ℤ) (proms : List PromiseMsg) (st : Leader)
    → IsQuorate st
    → AfterHandler (handle_promises st id proms)
unfolding handle_promises
handle_promises-IsQuorate id [] st q = q
handle_promises-IsQuorate id (prom ∷ proms) st q =
    next (handle_promise st prom id (get_pro_index prom.iid))
      (handle_promise-IsQuorate st prom id (get_pro_index prom.iid) q)
      (handle_promises-IsQuorate id proms)
  where
    next :
        (o : Option (ℤ × Leader))
        → AfterPromise o
        → ((st : Leader) → IsQuorate st → AfterHandler (handle_promises st id proms))
        → AfterHandler (elim o [ none ↦ none | some (ret, st') ↦ handle_promises st' id proms ])
    next none q rest = tt
    next (some (ret, st')) q rest = rest st' q

promise_msg-IsQuorate :
    (id : ℤ) (proms : List PromiseMsg) (st : Leader)
    → IsQuorate st
    → AfterHandler (leader_handle_promise_msg st id proms)
unfolding leader_handle_promise_msg
promise_msg-IsQuorate id proms st q =
    next (handle_promises st id proms) (handle_promises-IsQuorate id proms st q)
  where
    next :
        (o : Option Leader)
        → AfterHandler o
        → AfterHandler (elim o [
          | none ↦ none
          | some st' ↦ some (execute_phase2 st' (first_of proms) (last_of minus_one proms))
        ])
    next none q = tt
    next (some st') q = execute_phase2-IsQuorate st' _ _ q

phase2_check-IsQuorate :
    (st : Leader)
    → is_ready (st.proposer_array (get_pro_index st.current_iid)).status ≡ false
    → IsQuorate st
    → AfterHandler (phase2_check_cb st)
unfolding phase2_check_cb
phase2_check-IsQuorate st idle q =
    let k = get_pro_index st.current_iid in
    let rec = st.proposer_array k in
    elim (Bool-cases (eqb_ℤ st.current_iid st.p2_current_iid)) [
      | inr moved ↦ rw moved (same_counts st _ (refl, refl) q)
      | inl stuck ↦ elim (Bool-cases (eqb_ℤ rec.iid st.current_iid)) [
        | inr other ↦ rw (stuck, other) tt
        | inl same ↦
            let st₁ = record (new_batch st) {
              proposer_array = update st.proposer_array k (restarted rec);
              p1info = recount st.p1info (is_finished rec.status);
            } in
            let q₁ : IsQuorate st₁ =
              put-IsQuorate (new_batch st) k (restarted rec)
                (recount st.p1info (is_finished rec.status))
                (same_counts st (new_batch st) (refl, refl) q)
                (restart_counted rec.status (restarted rec).status rec (ballot_next rec.ballot) idle
                  (q.counted k))
                (recount_started st.p1info (is_finished rec.status) q.started) in
            let s = add_prepare-SameCounts st₁ rec.iid (ballot_next rec.ballot) in
            rw (stuck, same) (same_counts st₁ _ s q₁)
      ]
    ]
  where
    recount_started :
        (p : Phase1Info) (b : Bool)
        → minus_one ≤ℤ p.highest_ready
        → minus_one ≤ℤ (recount p b).highest_ready
    recount_started p true h = h
    recount_started p false h = h

-- The states of a leader with number `id`. Each handler may run at any time, except that the
-- phase 2 check does not find the record of the current instance ready.
pub data Reached (id : ℤ) : Leader → Type 0 where
  started : Reached id (leader_init id)
  promised :
      (st st' : Leader) (acceptor : ℤ) (proms : List PromiseMsg)
      → Reached id st
      → leader_handle_promise_msg st acceptor proms ≡ some st'
      → Reached id st'
  p1_checked : (st : Leader) → Reached id st → Reached id (phase1_check_cb st)
  p2_checked :
      (st st' : Leader)
      → Reached id st
      → is_ready (st.proposer_array (get_pro_index st.current_iid)).status ≡ false
      → phase2_check_cb st ≡ some st'
      → Reached id st'
  delivered : (st : Leader) (iid : ℤ) → Reached id st → Reached id (leader_deliver_value st iid)

start-IsQuorate : (id : ℤ) → IsQuorate (leader_init id)
unfolding leader_init
start-IsQuorate id =
    execute_phase1-IsQuorate (leader_start id) (record { counted = λ k. tt; started = omega arith })

reached-IsQuorate : (id : ℤ) (st : Leader) → Reached id st → IsQuorate st
reached-IsQuorate id _ started = start-IsQuorate id
reached-IsQuorate id _ (promised st st' a proms r e) =
    subst AfterHandler e (promise_msg-IsQuorate a proms st (reached-IsQuorate id st r))
reached-IsQuorate id _ (p1_checked st r) = phase1_check-IsQuorate st (reached-IsQuorate id st r)
reached-IsQuorate id _ (p2_checked st st' r idle e) =
    subst AfterHandler e (phase2_check-IsQuorate st idle (reached-IsQuorate id st r))
reached-IsQuorate id _ (delivered st iid r) =
    let q = reached-IsQuorate id st r in record { counted = q.counted; started = q.started }

-- Whatever messages a leader handles and whatever timers fire, in any order: a record that is ready
-- for phase 2 holds promises of a quorum of different acceptors, provided that the phase 2 check
-- never finds the record of the current instance ready.
pub ready_has_quorum :
    (id : ℤ) (st : Leader) (k : ℕ)
    → Reached id st
    → (st.proposer_array k).status ≡ p1_ready
    → quorum ≤ count_kept n_of_acceptors (st.proposer_array k).promises
ready_has_quorum id st k r e =
    (subst (λ s. CountedAs s (st.proposer_array k)) e ((reached-IsQuorate id st r).counted k)).1
