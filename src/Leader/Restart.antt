-- ===== src/Leader/Restart.antt =====
-- The periodic check of phase 2 in lib/leader.c, on a record that is ready.
use libfastpaxos.Base.{◌≡◌, refl, ◌∙◌, ap, true, some, update, update_self}
use libfastpaxos.Base.Int.{eqb_ℤ, eqb_refl}
use libfastpaxos.Config.{n_of_acceptors, get_pro_index, ballot_next}
use libfastpaxos.Leader.State.{p1_ready, is_finished, Leader, new_batch}
use libfastpaxos.Leader.Phase2.{restarted, recount, phase2_check_cb}
use libfastpaxos.Leader.Counts.{count_kept}
use libfastpaxos.Leader.Quorate.{add_prepare-SameCounts}

-- The phase 2 check on a ready record with no progress: the record is ready still, with a higher
-- ballot, though every promise is gone from it.
pub phase2_check_keeps_ready :
    (st : Leader)
    → let k = get_pro_index st.current_iid in
      st.current_iid ≡ st.p2_current_iid
      → (st.proposer_array k).iid ≡ st.current_iid
      → (st.proposer_array k).status ≡ p1_ready
      → (st' : Leader) × (phase2_check_cb st ≡ some st')
        × ((st'.proposer_array k).status ≡ p1_ready)
        × ((st'.proposer_array k).ballot ≡ ballot_next (st.proposer_array k).ballot)
        × (count_kept n_of_acceptors (st'.proposer_array k).promises ≡ 0)
unfolding phase2_check_cb
phase2_check_keeps_ready st stuck same ready =
    let k = get_pro_index st.current_iid in
    let rec = st.proposer_array k in
    let a : eqb_ℤ st.current_iid st.p2_current_iid ≡ true = rw⁻¹ stuck (eqb_refl st.current_iid) in
    let b : eqb_ℤ rec.iid st.current_iid ≡ true = rw same (eqb_refl st.current_iid) in
    let st₁ = record (new_batch st) {
      proposer_array = update st.proposer_array k (restarted rec);
      p1info = recount st.p1info (is_finished rec.status);
    } in
    let s = add_prepare-SameCounts st₁ rec.iid (ballot_next rec.ballot) in
    let at = ap (λ arr. arr k) s.0 ∙ update_self st.proposer_array k (restarted rec) in
    rw (a, b)
      (
        _,
        refl,
        ap (λ x. x.status) at ∙ rw ready refl,
        ap (λ x. x.ballot) at,
        ap (λ x. count_kept n_of_acceptors x.promises) at,
      )
