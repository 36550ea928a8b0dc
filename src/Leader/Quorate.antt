-- ===== src/Leader/Quorate.antt =====
-- Every state that the handlers of lib/leader.c reach counts its promises right.
use libfastpaxos.Base.{
  ℕ, zero, suc, ◌+◌, ◌≡◌, refl, sym, ap, subst, ◌&&◌, ◌||◌, List, [], ◌∷◌, arith, Bool-cases, inl,
  inr, ltb, update, update_all,
}
use libfastpaxos.Base.Int.{ℤ, pos, minus_one, ◌+ℤ◌, ◌≤ℤ◌, ◌<ℤ◌, eqb_ℤ, ltb_ℤ, int_laws}
use libfastpaxos.Config.{get_pro_index, preexec_win_size, first_ballot, ballot_next}
use libfastpaxos.Leader.State.{
  p1_pending, is_new, is_pending, ProposerRecord, Leader, Phase1Info, clear_promises,
  add_prepare_to_buffer, append_anymsg_to_buffer, rounds_between, new_batch,
}
use libfastpaxos.Leader.Phase1.{
  opened, open_instance, open_instances, flush_batch, execute_phase1, retry_instance,
  retry_instances, phase1_check_cb, is_short, widen,
}
use libfastpaxos.Leader.Phase2.{flush_anymsg}
use libfastpaxos.Leader.Counts.{CountedAs, IsCounted, clear_counted, pending_eq}

pub record IsQuorate (st : Leader) : Type 0 where
  pub counted : (k : ℕ) → IsCounted (st.proposer_array k)
  pub started : minus_one ≤ℤ st.p1info.highest_ready

-- The fields that count are those of another state.
abbrev pub SameCounts : Leader → Leader → Type 0
SameCounts st st' = (st'.proposer_array ≡ st.proposer_array) × (st'.p1info ≡ st.p1info)

pub same_counts : (st st' : Leader) → SameCounts st st' → IsQuorate st → IsQuorate st'
same_counts st st' (e, p) q = record { counted = λ k. rw e (q.counted k); started = rw p q.started }

pub add_prepare-SameCounts :
    (st : Leader) (iid ballot : ℤ) → SameCounts st (add_prepare_to_buffer st iid ballot)
unfolding add_prepare_to_buffer
add_prepare-SameCounts st iid ballot = elim (Bool-cases (ltb 9000 (st.msg_size + 8 + 8 + 8))) [
  | inl e ↦ rw e (refl, refl)
  | inr e ↦ rw e (refl, refl)
]

pub append_anymsg-SameCounts :
    (st : Leader) (iid : ℤ) → SameCounts st (append_anymsg_to_buffer st iid)
unfolding append_anymsg_to_buffer
append_anymsg-SameCounts st iid = elim (Bool-cases (ltb 9000 (st.msg_size + 4 + 8 + 4))) [
  | inl e ↦ rw e (refl, refl)
  | inr e ↦ rw e (refl, refl)
]

pub flush_batch-SameCounts :
    (st : Leader) (b : List _) → b ≡ st.batch → SameCounts st (flush_batch st)
flush_batch-SameCounts st [] e = rw⁻¹ e (refl, refl)
flush_batch-SameCounts st (x ∷ xs) e = rw⁻¹ e (refl, refl)

pub flush_anymsg-SameCounts :
    (st : Leader) (b : List ℤ) → b ≡ st.any_ids → SameCounts st (flush_anymsg st)
flush_anymsg-SameCounts st [] e = rw⁻¹ e (refl, refl)
flush_anymsg-SameCounts st (x ∷ xs) e = rw⁻¹ e (refl, refl)

-- A record that is written counts right, and the others stay.
pub put-IsQuorate :
    (st : Leader) (k : ℕ) (rec : ProposerRecord) (p : Phase1Info)
    → IsQuorate st
    → IsCounted rec
    → minus_one ≤ℤ p.highest_ready
    → IsQuorate (record st { p1info = p; proposer_array = update st.proposer_array k rec })
put-IsQuorate st k rec p q c h = record {
  counted = update_all (λ _ x. IsCounted x) st.proposer_array k rec c (λ j _. q.counted j);
  started = h;
}

open_instance-IsQuorate :
    (st : Leader) (i : ℤ)
    → minus_one <ℤ i
    → IsQuorate st
    → IsQuorate (open_instance st i)
      × ((open_instance st i).p1info.highest_ready ≡ st.p1info.highest_ready)
unfolding open_instance
open_instance-IsQuorate st i h q =
    let rec = st.proposer_array (get_pro_index i) in
    elim (Bool-cases (ltb_ℤ rec.iid i || is_new rec.status)) [
      | inl y ↦
          let st₁ = record st {
            p1info = record st.p1info { pending_count = st.p1info.pending_count +ℤ pos 1 };
            proposer_array = update st.proposer_array (get_pro_index i) (opened st rec i);
          } in
          let s = add_prepare-SameCounts st₁ i (first_ballot st.proposer_id) in
          rw y (
            same_counts st₁ _ s (
                put-IsQuorate st (get_pro_index i) (opened st rec i) st₁.p1info q
                  (clear_counted
                    (record rec {
                      iid = i;
                      status = p1_pending;
                      ballot = first_ballot st.proposer_id;
                    })
                    h)
                  q.started),
            ap (λ p. p.highest_ready) s.1,
          )
      | inr z ↦ rw z (q, refl)
    ]

open_instances-IsQuorate :
    (n : ℕ) (i : ℤ) (st : Leader)
    → minus_one <ℤ i
    → IsQuorate st
    → IsQuorate (open_instances n i st)
unfolding open_instances
open_instances-IsQuorate zero i st h q = q
open_instances-IsQuorate (suc n) i st h q =
    open_instances-IsQuorate n (i +ℤ pos 1) (open_instance st i) (omega int_laws)
      (open_instance-IsQuorate st i h q).0

pub execute_phase1-IsQuorate : (st : Leader) → IsQuorate st → IsQuorate (execute_phase1 st)
unfolding execute_phase1
execute_phase1-IsQuorate st q =
    let from = st.p1info.highest_ready +ℤ pos 1 in
    let q' = open_instances-IsQuorate 51 from st (omega (int_laws, q.started)) q in
    let st' = open_instances 51 from st in
    let st₁ = record st' { p1info = widen st'.p1info from (from +ℤ pos preexec_win_size) } in
    same_counts st₁ _ (flush_batch-SameCounts st₁ _ refl)
      (record { counted = q'.counted; started = q'.started })

retry_instance-IsQuorate : (st : Leader) (i : ℤ) → IsQuorate st → IsQuorate (retry_instance st i)
unfolding retry_instance
retry_instance-IsQuorate st i q =
    let rec = st.proposer_array (get_pro_index i) in
    elim (Bool-cases (eqb_ℤ rec.iid i && is_pending rec.status)) [
      | inl y ↦
          let e = pending_eq rec.status (ground arith) in
          let c = subst (λ s. CountedAs s rec) e (q.counted (get_pro_index i)) in
          let rec' = clear_promises (record rec { ballot = ballot_next rec.ballot }) in
          rw y (
            same_counts _ _ (add_prepare-SameCounts _ _ _) (
              put-IsQuorate st (get_pro_index i) rec' st.p1info q
                (subst (λ s. CountedAs s rec') (sym e) (clear_counted rec' c.0)) q.started))
      | inr z ↦ rw z q
    ]

retry_instances-IsQuorate :
    (n : ℕ) (i : ℤ) (st : Leader) → IsQuorate st → IsQuorate (retry_instances n i st)
unfolding retry_instances
retry_instances-IsQuorate zero i st q = q
retry_instances-IsQuorate (suc n) i st q =
    retry_instances-IsQuorate n (i +ℤ pos 1) (retry_instance st i) (retry_instance-IsQuorate st i q)

pub phase1_check-IsQuorate : (st : Leader) → IsQuorate st → IsQuorate (phase1_check_cb st)
unfolding phase1_check_cb
phase1_check-IsQuorate st q =
    let p = st.p1info in
    let n = rounds_between p.first_to_check p.last_to_check in
    let st' = retry_instances n p.first_to_check (new_batch st) in
    let q' : IsQuorate st' =
      retry_instances-IsQuorate n p.first_to_check (new_batch st)
        (same_counts st (new_batch st) (refl, refl) q) in
    elim (Bool-cases (is_short st')) [
      | inl y ↦ rw y (
          same_counts (execute_phase1 st') _ (flush_batch-SameCounts (execute_phase1 st') _ refl)
            (execute_phase1-IsQuorate st' q'))
      | inr z ↦ rw z (same_counts st' _ (flush_batch-SameCounts st' _ refl) q')
    ]
