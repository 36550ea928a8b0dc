-- ===== src/Leader/LedgerPhase2.antt =====
-- Promises, phase 2 and its check in lib/leader.c keep the ledger of accept requests in order.
use libfastpaxos.Base.{
  ℕ, zero, suc, ◌≡◌, refl, subst, not, List, [], ◌∷◌, Option, none, some, arith, Bool-cases, inl,
  inr, ltb, if◌then◌else◌, if_both, update,
}
use libfastpaxos.Base.Int.{ℤ, pos, minus_one, ◌+ℤ◌, eqb_ℤ, ltb_ℤ, int_laws}
use libfastpaxos.Config.{quorum, get_pro_index, ballot_next}
use libfastpaxos.Message.{PromiseMsg, prepare_batch}
use libfastpaxos.Leader.State.{
  p1_pending, p1_ready, p1_finished, is_pending, is_ready, is_finished, PromiseInfo, ProposerRecord,
  Leader, new_batch, new_anymsg, rounds_between, add_prepare_to_buffer,
}
use libfastpaxos.Leader.Phase1.{acceptor_index, with_promise, keep_promise, handle_promise}
use libfastpaxos.Leader.Phase2.{
  phase2_value, send_accept, offer_any, finish, phase2_instance, phase2_instances, execute_phase2,
  handle_promises, first_of, last_of, leader_handle_promise_msg, restarted, recount,
  phase2_check_cb,
}
use libfastpaxos.Leader.Counts.{pending_eq, ready_eq}
use libfastpaxos.Leader.Quorate.{append_anymsg-SameCounts}
use libfastpaxos.Leader.LedgerMoves.{PastAs-mono, ready_done, restart_past, restart_placed}
use libfastpaxos.Leader.Ledger.{
  PastAs, PlacedAs, accepts, accepts-append, put-IsLedger, send-IsLedger,
}
use libfastpaxos.Leader.LedgerPhase1.{
  IsOrdered, add_prepare-IsOrdered, append_anymsg-IsOrdered, flush-IsOrdered,
  flush_anymsg-IsOrdered,
}

-- A handler that faults has no state behind it.
abbrev AfterPromise : ℤ → Option (ℤ × Leader) → Type 0
AfterPromise me none = Unit
AfterPromise me (some (ret, st)) = IsOrdered me st

abbrev pub AfterHandler : ℤ → Option Leader → Type 0
AfterHandler me none = Unit
AfterHandler me (some st) = IsOrdered me st

module _ {me : ℤ} where
  keep_promise-IsOrdered :
      (st : Leader) (k a : ℕ) (prom : PromiseMsg)
      → IsOrdered me st
      → (st.proposer_array k).status ≡ p1_pending
      → IsOrdered me (keep_promise st k (with_promise (st.proposer_array k) a prom)).1
  keep_promise-IsOrdered st k a prom q e =
      let rec = st.proposer_array k in
      let rec' = with_promise rec a prom in
      if_both (λ (s : ℤ × Leader). IsOrdered me s.1) (ltb rec'.promise_count quorum)
        (record {
          ledger =
              put-IsLedger st.proposer_array (accepts st.sent) k rec' q.ledger (q.ledger.placed k)
                (λ a e h. PastAs-mono rec.status rec rec' a refl (omega arith) h);
          own = q.own;
        })
        (record {
          ledger =
              put-IsLedger st.proposer_array (accepts st.sent) k (record rec' { status = p1_ready })
                q.ledger (subst (λ s. PlacedAs me s k rec.iid rec.ballot) e (q.ledger.placed k))
                (λ a p h. subst (λ s. PastAs s rec a) e h);
          own = q.own;
        })

  handle_promise-IsOrdered :
      (st : Leader) (prom : PromiseMsg) (id : ℤ) (k : ℕ)
      → IsOrdered me st
      → AfterPromise me (handle_promise st prom id k)
  unfolding handle_promise
  handle_promise-IsOrdered st prom id k q =
      let rec = st.proposer_array k in
      elim (Bool-cases (eqb_ℤ rec.iid prom.iid)) [
        | inr other ↦ rw other q
        | inl same ↦ elim (Bool-cases (is_pending rec.status)) [
          | inr idle ↦ rw (same, idle) q
          | inl wait ↦ elim (Bool-cases (eqb_ℤ rec.ballot prom.ballot)) [
            | inr old ↦ rw (same, wait, old) q
            | inl now ↦
                rw (same, wait, now) (at_place (acceptor_index id) (pending_eq rec.status wait))
          ]
        ]
      ]
    where
      at_place :
          (o : Option ℕ)
          → (st.proposer_array k).status ≡ p1_pending
          → AfterPromise me (elim o [
            | none ↦ none
            | some a ↦ some (
                if not (eqb_ℤ ((st.proposer_array k).promises a).iid minus_one)
                then (pos 0, st)
                else keep_promise st k (with_promise (st.proposer_array k) a prom))
          ])
      at_place none wait = tt
      at_place (some a) wait =
          if_both (λ (s : ℤ × Leader). IsOrdered me s.1)
            (not (eqb_ℤ ((st.proposer_array k).promises a).iid minus_one)) q
            (keep_promise-IsOrdered st k a prom q wait)

  handle_promises-IsOrdered :
      (id : ℤ) (proms : List PromiseMsg) (st : Leader)
      → IsOrdered me st
      → AfterHandler me (handle_promises st id proms)
  unfolding handle_promises
  handle_promises-IsOrdered id [] st q = q
  handle_promises-IsOrdered id (prom ∷ proms) st q =
      next (handle_promise st prom id (get_pro_index prom.iid))
        (handle_promise-IsOrdered st prom id (get_pro_index prom.iid) q)
        (handle_promises-IsOrdered id proms)
    where
      next :
          (o : Option (ℤ × Leader))
          → AfterPromise me o
          → ((st : Leader) → IsOrdered me st → AfterHandler me (handle_promises st id proms))
          → AfterHandler me
              (elim o [ none ↦ none | some (ret, st') ↦ handle_promises st' id proms ])
      next none q rest = tt
      next (some (ret, st')) q rest = rest st' q

  finish-IsOrdered :
      (st : Leader) (k : ℕ)
      → IsOrdered me st
      → (st.proposer_array k).status ≡ p1_ready
      → IsOrdered me (finish st k)
  finish-IsOrdered st k q e =
      let rec = st.proposer_array k in
      record {
        ledger =
            put-IsLedger st.proposer_array (accepts st.sent) k (record rec { status = p1_finished })
              q.ledger (subst (λ s. PlacedAs me s k rec.iid rec.ballot) e (q.ledger.placed k))
              (λ a p h. ready_done rec a (subst (λ s. PastAs s rec a) e h));
        own = q.own;
      }

  phase2_instance-IsOrdered :
      (st : Leader) (i : ℤ) → IsOrdered me st → IsOrdered me (phase2_instance st i)
  unfolding phase2_instance send_accept
  phase2_instance-IsOrdered st i q = elim (Bool-cases (is_ready rec.status)) [
    | inr idle ↦ rw idle q
    | inl ready ↦ rw ready (chosen (phase2_value rec) (ready_eq rec.status ready))
  ]
    where
      k : ℕ
      k = get_pro_index i

      rec : ProposerRecord
      rec = st.proposer_array k

      chosen :
          (o : Option PromiseInfo)
          → rec.status ≡ p1_ready
          → IsOrdered me (elim o [
            | none ↦ finish (offer_any st rec i) k
            | some pi ↦ finish (send_accept st rec pi) k
          ])
      chosen none e =
          let same =
            append_anymsg-SameCounts
              (record st {
                any_ballot = if ltb_ℤ st.any_ballot rec.ballot then rec.ballot else st.any_ballot;
              })
              i in
          finish-IsOrdered (offer_any st rec i) k
            (append_anymsg-IsOrdered _ i (record { ledger = q.ledger; own = q.own })) (rw same.0 e)
      chosen (some pi) e = record {
        ledger =
            rw (accepts-append st.sent _)
              (send-IsLedger st.proposer_array (accepts st.sent) k _ q.ledger e refl refl);
        own = q.own;
      }

  phase2_instances-IsOrdered :
      (n : ℕ) (i : ℤ) (st : Leader) → IsOrdered me st → IsOrdered me (phase2_instances n i st)
  unfolding phase2_instances
  phase2_instances-IsOrdered zero i st q = q
  phase2_instances-IsOrdered (suc n) i st q =
      phase2_instances-IsOrdered n (i +ℤ pos 1) (phase2_instance st i)
        (phase2_instance-IsOrdered st i q)

  execute_phase2-IsOrdered :
      (st : Leader) (first last : ℤ) → IsOrdered me st → IsOrdered me (execute_phase2 st first last)
  unfolding execute_phase2
  execute_phase2-IsOrdered st first last q = flush_anymsg-IsOrdered _ (
      phase2_instances-IsOrdered (rounds_between first last) first (new_anymsg st)
        (record { ledger = q.ledger; own = q.own }))

  pub promise_msg-IsOrdered :
      (id : ℤ) (proms : List PromiseMsg) (st : Leader)
      → IsOrdered me st
      → AfterHandler me (leader_handle_promise_msg st id proms)
  unfolding leader_handle_promise_msg
  promise_msg-IsOrdered id proms st q =
      next (handle_promises st id proms) (handle_promises-IsOrdered id proms st q)
    where
      next :
          (o : Option Leader)
          → AfterHandler me o
          → AfterHandler me (elim o [
            | none ↦ none
            | some st' ↦ some (execute_phase2 st' (first_of proms) (last_of minus_one proms))
          ])
      next none q = tt
      next (some st') q = execute_phase2-IsOrdered st' _ _ q

  pub phase2_check-IsOrdered :
      (st : Leader) → IsOrdered me st → AfterHandler me (phase2_check_cb st)
  unfolding phase2_check_cb
  phase2_check-IsOrdered st q =
      let k = get_pro_index st.current_iid in
      let rec = st.proposer_array k in
      elim (Bool-cases (eqb_ℤ st.current_iid st.p2_current_iid)) [
        | inr moved ↦ rw moved (record { ledger = q.ledger; own = q.own })
        | inl stuck ↦ elim (Bool-cases (eqb_ℤ rec.iid st.current_iid)) [
          | inr other ↦ rw (stuck, other) tt
          | inl same ↦
              let st₁ = record (new_batch st) {
                proposer_array = update st.proposer_array k (restarted rec);
                p1info = recount st.p1info (is_finished rec.status);
              } in
              let q₁ : IsOrdered me st₁ = record {
                ledger =
                    put-IsLedger st.proposer_array (accepts st.sent) k (restarted rec) q.ledger
                      (restart_placed me rec.status k rec.iid rec.ballot (q.ledger.placed k))
                      (λ a p h.
                        restart_past rec.status rec (restarted rec) a refl (omega int_laws) h);
                own = q.own;
              } in
              let st₂ = add_prepare_to_buffer st₁ rec.iid (ballot_next rec.ballot) in
              let q₂ = add_prepare-IsOrdered st₁ rec.iid (ballot_next rec.ballot) q₁ in
              let q₃ = flush-IsOrdered st₂ (prepare_batch st₂.batch) refl q₂ in
              rw (stuck, same) (record { ledger = q₃.ledger; own = q₃.own })
        ]
      ]
