-- ===== src/Leader/LedgerPhase1.antt =====
-- Phase 1 in lib/leader.c keeps the ledger of accept requests in order.
use mathlib.Core.List.{append-nil}
use libfastpaxos.Base.{
  ap, ℕ, zero, suc, ◌+◌, ◌≡◌, refl, ◌∙◌, ◌&&◌, ◌||◌, List, [], ◌∷◌, Bool-cases, inl, inr, ltb,
  if◌then◌else◌, if_both,
}
use libfastpaxos.Base.Int.{ℤ, pos, ◌+ℤ◌, eqb_ℤ, ltb_ℤ, int_laws}
use libfastpaxos.Config.{get_pro_index, preexec_win_size, first_ballot, ballot_next}
use libfastpaxos.Message.{PrepareMsg, PaxosMsg, prepare_batch, anyval}
use libfastpaxos.Leader.State.{
  is_new, is_pending, Leader, flush_send_buffer, new_batch, clear_promises, append_prepare,
  append_id, add_prepare_to_buffer, append_anymsg_to_buffer, rounds_between,
}
use libfastpaxos.Leader.Phase1.{
  opened, open_instance, open_instances, flush_batch, execute_phase1, widen, retry_instance,
  retry_instances, is_short, phase1_check_cb,
}
use libfastpaxos.Leader.Phase2.{flush_anymsg}
use libfastpaxos.Leader.LedgerMoves.{PastAs-mono, past_opened, next_placed}
use libfastpaxos.Leader.Ledger.{accept_in, accepts, accepts-append, IsLedger, put-IsLedger}

pub record IsOrdered (id : ℤ) (st : Leader) : Type 0 where
  pub ledger : IsLedger id st.proposer_array (accepts st.sent)
  pub own : st.proposer_id ≡ id

module _ {id : ℤ} where
  -- The same records, and the same accept requests.
  same_ledger :
      (st st' : Leader)
      → st'.proposer_id ≡ st.proposer_id
      → st'.proposer_array ≡ st.proposer_array
      → accepts st'.sent ≡ accepts st.sent
      → IsOrdered id st
      → IsOrdered id st'
  same_ledger st st' own e f q = record { ledger = rw (e, f) q.ledger; own = own ∙ q.own }

  -- A packet with no accept request adds nothing.
  pub flush-IsOrdered :
      (st : Leader) (m : PaxosMsg)
      → accept_in m ≡ []
      → IsOrdered id st
      → IsOrdered id (flush_send_buffer st m)
  flush-IsOrdered st m e q =
      same_ledger st (flush_send_buffer st m) refl refl
        (accepts-append st.sent _ ∙ rw e (append-nil (accepts st.sent))) q

  pub add_prepare-IsOrdered :
      (st : Leader) (iid ballot : ℤ)
      → IsOrdered id st
      → IsOrdered id (add_prepare_to_buffer st iid ballot)
  unfolding add_prepare_to_buffer
  add_prepare-IsOrdered st iid ballot q =
      let st' = append_prepare st iid ballot in
      let q' : IsOrdered id st' = record { ledger = q.ledger; own = q.own } in
      let sent = flush-IsOrdered st' (prepare_batch st'.batch) refl q' in
      if_both (IsOrdered id) (ltb 9000 (st'.msg_size + 8 + 8))
        (record { ledger = sent.ledger; own = sent.own }) q'

  pub append_anymsg-IsOrdered :
      (st : Leader) (iid : ℤ) → IsOrdered id st → IsOrdered id (append_anymsg_to_buffer st iid)
  unfolding append_anymsg_to_buffer
  append_anymsg-IsOrdered st iid q =
      let st' = append_id st iid in
      let q' : IsOrdered id st' = record { ledger = q.ledger; own = q.own } in
      let sent = flush-IsOrdered st' (anyval st'.any_ballot st'.any_ids) refl q' in
      if_both (IsOrdered id) (ltb 9000 (st'.msg_size + 8 + 4))
        (record { ledger = sent.ledger; own = sent.own }) q'

  flush_batch-IsOrdered : (st : Leader) → IsOrdered id st → IsOrdered id (flush_batch st)
  flush_batch-IsOrdered st q = go st.batch
    where
      go :
          (ps : List PrepareMsg)
          → IsOrdered id
              (elim ps [ [] ↦ st | _ ∷ _ ↦ flush_send_buffer st (prepare_batch st.batch) ])
      go [] = q
      go (p ∷ ps) = flush-IsOrdered st (prepare_batch st.batch) refl q

  pub flush_anymsg-IsOrdered : (st : Leader) → IsOrdered id st → IsOrdered id (flush_anymsg st)
  flush_anymsg-IsOrdered st q = go st.any_ids
    where
      go :
          (ids : List ℤ)
          → IsOrdered id (elim ids [
            | [] ↦ st
            | _ ∷ _ ↦ flush_send_buffer st (anyval st.any_ballot st.any_ids)
          ])
      go [] = q
      go (p ∷ ps) = flush-IsOrdered st (anyval st.any_ballot st.any_ids) refl q

  open_instance-IsOrdered :
      (st : Leader) (i : ℤ) → IsOrdered id st → IsOrdered id (open_instance st i)
  unfolding open_instance
  open_instance-IsOrdered st i q =
      let k = get_pro_index i in
      let rec = st.proposer_array k in
      elim (Bool-cases (ltb_ℤ rec.iid i || is_new rec.status)) [
        | inr z ↦ rw z q
        | inl y ↦ rw y (
            add_prepare-IsOrdered _ i (first_ballot st.proposer_id) (record {
              ledger =
                  put-IsLedger st.proposer_array (accepts st.sent) k (opened st rec i) q.ledger
                    (refl, (0, ap first_ballot q.own))
                    (λ a e h. inl (past_opened rec.status rec a i y h));
              own = q.own;
            }))
      ]

  open_instances-IsOrdered :
      (n : ℕ) (i : ℤ) (st : Leader) → IsOrdered id st → IsOrdered id (open_instances n i st)
  unfolding open_instances
  open_instances-IsOrdered zero i st q = q
  open_instances-IsOrdered (suc n) i st q =
      open_instances-IsOrdered n (i +ℤ pos 1) (open_instance st i) (open_instance-IsOrdered st i q)

  pub execute_phase1-IsOrdered : (st : Leader) → IsOrdered id st → IsOrdered id (execute_phase1 st)
  unfolding execute_phase1
  execute_phase1-IsOrdered st q =
      let from = st.p1info.highest_ready +ℤ pos 1 in
      let st' = open_instances (preexec_win_size + 1) from st in
      let q' = open_instances-IsOrdered (preexec_win_size + 1) from st q in
      flush_batch-IsOrdered
        (record st' { p1info = widen st'.p1info from (from +ℤ pos preexec_win_size) })
        (record { ledger = q'.ledger; own = q'.own })

  retry_instance-IsOrdered :
      (st : Leader) (i : ℤ) → IsOrdered id st → IsOrdered id (retry_instance st i)
  unfolding retry_instance
  retry_instance-IsOrdered st i q =
      let k = get_pro_index i in
      let rec = st.proposer_array k in
      let rec' = clear_promises (record rec { ballot = ballot_next rec.ballot }) in
      if_both (IsOrdered id) (eqb_ℤ rec.iid i && is_pending rec.status)
        (add_prepare-IsOrdered _ rec.iid (ballot_next rec.ballot) (record {
          ledger =
              put-IsLedger st.proposer_array (accepts st.sent) k rec' q.ledger
                (next_placed id rec.status k rec.iid rec.ballot (q.ledger.placed k))
                (λ a e h. PastAs-mono rec.status rec rec' a refl (omega int_laws) h);
          own = q.own;
        }))
        q

  retry_instances-IsOrdered :
      (n : ℕ) (i : ℤ) (st : Leader) → IsOrdered id st → IsOrdered id (retry_instances n i st)
  unfolding retry_instances
  retry_instances-IsOrdered zero i st q = q
  retry_instances-IsOrdered (suc n) i st q =
      retry_instances-IsOrdered n (i +ℤ pos 1) (retry_instance st i)
        (retry_instance-IsOrdered st i q)

  pub phase1_check-IsOrdered : (st : Leader) → IsOrdered id st → IsOrdered id (phase1_check_cb st)
  unfolding phase1_check_cb
  phase1_check-IsOrdered st q =
      let p = st.p1info in
      let n = rounds_between p.first_to_check p.last_to_check in
      let st' = retry_instances n p.first_to_check (new_batch st) in
      let q' : IsOrdered id st' =
        retry_instances-IsOrdered n p.first_to_check (new_batch st)
          (record { ledger = q.ledger; own = q.own }) in
      flush_batch-IsOrdered (if is_short st' then execute_phase1 st' else st')
        (if_both (IsOrdered id) (is_short st') (execute_phase1-IsOrdered st' q') q')
