-- ===== src/Leader/Bounds.antt =====
-- The prepare batches of lib/leader.c stay within a UDP message.
use libfastpaxos.Base.{
  ℕ, zero, suc, ◌+◌, ◌*◌, ◌≤◌, ◌≡◌, refl, ◌&&◌, ◌||◌, List, [], ◌∷◌, arith, ltb, length,
  length-append, Bool-cases, inl, inr, All, All-append,
}
use libfastpaxos.Base.Int.{ℤ, pos, ◌+ℤ◌, eqb_ℤ, ltb_ℤ}
use libfastpaxos.Config.{
  max_udp_msg_size, get_pro_index, preexec_win_size, first_ballot, ballot_next,
}
use libfastpaxos.Message.{
  PrepareMsg, Fits, prepare_batch, sizeof_paxos_msg, sizeof_prepare_msg, sizeof_prepare_batch_msg,
}
use libfastpaxos.Leader.State.{
  Leader, is_new, is_pending, new_batch, flush_send_buffer, add_prepare_to_buffer, rounds_between,
}
use libfastpaxos.Leader.Phase1.{
  open_instance, open_instances, execute_phase1, retry_instance, retry_instances, phase1_check_cb,
  flush_batch, is_short, widen,
}

-- The size in the header is that of the batch, and one more request fits.
record IsBatch (st : Leader) : Type 0 where
  size : st.msg_size ≡ sizeof_prepare_batch_msg + sizeof_prepare_msg * length st.batch
  room : st.msg_size + sizeof_paxos_msg + sizeof_prepare_msg ≤ max_udp_msg_size
  fits : All Fits st.sent

add_prepare-IsBatch :
    (st : Leader) (iid ballot : ℤ) → IsBatch st → IsBatch (add_prepare_to_buffer st iid ballot)
unfolding add_prepare_to_buffer
add_prepare-IsBatch st iid ballot b =
    let n = length-append st.batch (record { iid = iid; ballot = ballot } ∷ []) in
    elim (Bool-cases (ltb max_udp_msg_size (st.msg_size + 8 + 8 + 8))) [
      | inl full ↦ rw full (record {
        size = refl;
        room = omega arith;
        fits =
            All-append Fits st.sent _ b.fits
              ((omega (arith, n, b.size), omega (arith, b.room)), tt);
      })
      | inr more ↦
          rw more (record { size = omega (arith, n, b.size); room = ground arith; fits = b.fits })
    ]

open_instance-IsBatch : (st : Leader) (i : ℤ) → IsBatch st → IsBatch (open_instance st i)
unfolding open_instance
open_instance-IsBatch st i b =
    let rec = st.proposer_array (get_pro_index i) in
    elim (Bool-cases (ltb_ℤ rec.iid i || is_new rec.status)) [
      | inl y ↦ rw y (
          add_prepare-IsBatch _ i (first_ballot st.proposer_id)
            (record { size = b.size; room = b.room; fits = b.fits }))
      | inr z ↦ rw z b
    ]

open_instances-IsBatch :
    (n : ℕ) (i : ℤ) (st : Leader) → IsBatch st → IsBatch (open_instances n i st)
unfolding open_instances
open_instances-IsBatch zero i st b = b
open_instances-IsBatch (suc n) i st b =
    open_instances-IsBatch n (i +ℤ pos 1) (open_instance st i) (open_instance-IsBatch st i b)

flush_batch-IsBatch : (st : Leader) → IsBatch st → IsBatch (flush_batch st)
flush_batch-IsBatch st b = go st.batch
  where
    go :
        (ps : List PrepareMsg)
        → IsBatch (elim ps [ [] ↦ st | _ ∷ _ ↦ flush_send_buffer st (prepare_batch st.batch) ])
    go [] = b
    go (p ∷ ps) = record {
      size = b.size;
      room = b.room;
      fits = All-append Fits st.sent _ b.fits ((omega (arith, b.size), omega (arith, b.room)), tt);
    }

execute_phase1-IsBatch : (st : Leader) → IsBatch st → IsBatch (execute_phase1 st)
unfolding execute_phase1
execute_phase1-IsBatch st b =
    let from = st.p1info.highest_ready +ℤ pos 1 in
    let o = open_instances-IsBatch (preexec_win_size + 1) from st b in
    let st' = open_instances (preexec_win_size + 1) from st in
    let st₁ = record st' { p1info = widen st'.p1info from (from +ℤ pos preexec_win_size) } in
    flush_batch-IsBatch st₁ (record { size = o.size; room = o.room; fits = o.fits })

retry_instance-IsBatch : (st : Leader) (i : ℤ) → IsBatch st → IsBatch (retry_instance st i)
unfolding retry_instance
retry_instance-IsBatch st i b =
    let rec = st.proposer_array (get_pro_index i) in
    elim (Bool-cases (eqb_ℤ rec.iid i && is_pending rec.status)) [
      | inl y ↦ rw y (
          add_prepare-IsBatch _ rec.iid (ballot_next rec.ballot)
            (record { size = b.size; room = b.room; fits = b.fits }))
      | inr z ↦ rw z b
    ]

retry_instances-IsBatch :
    (n : ℕ) (i : ℤ) (st : Leader) → IsBatch st → IsBatch (retry_instances n i st)
unfolding retry_instances
retry_instances-IsBatch zero i st b = b
retry_instances-IsBatch (suc n) i st b =
    retry_instances-IsBatch n (i +ℤ pos 1) (retry_instance st i) (retry_instance-IsBatch st i b)

-- Whatever the records are, and however many instances are opened or asked for again, each packet
-- that the periodic check of phase 1 sends is as long as its message and within a UDP message.
pub phase1_check-Fits : (st : Leader) → All Fits st.sent → All Fits (phase1_check_cb st).sent
unfolding phase1_check_cb
phase1_check-Fits st f =
    let p = st.p1info in
    let n = rounds_between p.first_to_check p.last_to_check in
    let st' = retry_instances n p.first_to_check (new_batch st) in
    let b : IsBatch st' =
      retry_instances-IsBatch n p.first_to_check (new_batch st)
        (record { size = refl; room = omega arith; fits = f }) in
    elim (Bool-cases (is_short st')) [
      | inl y ↦ rw y (flush_batch-IsBatch (execute_phase1 st') (execute_phase1-IsBatch st' b)).fits
      | inr z ↦ rw z (flush_batch-IsBatch st' b).fits
    ]
