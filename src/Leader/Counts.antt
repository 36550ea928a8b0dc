-- ===== src/Leader/Counts.antt =====
-- The promises that a record of lib/leader.c holds are counted right.
use mathlib.Core.Bool.{false≢true}
use libfastpaxos.Base.{
  ℕ, zero, suc, ◌+◌, ◌≤◌, ◌<◌, ◌≡◌, ◌≢◌, refl, ◌∙◌, sym, ap, subst, Bool, true, false, not, Option,
  none, some, arith, Bool-cases, inl, inr, ◌==◌, if◌then◌else◌, update, update_self, update_ne,
}
use libfastpaxos.Base.Int.{ℤ, minus_one, ◌<ℤ◌, eqb_ℤ}
use libfastpaxos.Config.{n_of_acceptors, quorum}
use libfastpaxos.Message.{PromiseMsg}
use libfastpaxos.Leader.State.{
  StatusFlag, p1_new, p1_pending, p1_ready, p1_finished, PromiseInfo, ProposerRecord, no_promise,
  clear_promises, is_pending, is_ready, is_finished,
}
use libfastpaxos.Leader.Phase1.{with_promise, kept_promise}

-- One for a promise that was received.
abbrev pub kept : PromiseInfo → ℕ
kept p = if eqb_ℤ p.iid minus_one then 0 else 1

-- The number of the first `n` acceptors whose promise is held.
abbrev pub count_kept : ℕ → (ℕ → PromiseInfo) → ℕ
count_kept zero promises = 0
count_kept (suc n) promises = count_kept n promises + kept (promises n)

count_none : (n : ℕ) → count_kept n (λ j. no_promise) ≡ 0
count_none zero = refl
count_none (suc n) = omega (arith, count_none n)

count_beyond :
    (n a : ℕ) (promises : ℕ → PromiseInfo) (p : PromiseInfo)
    → n ≤ a
    → count_kept n (update promises a p) ≡ count_kept n promises
count_beyond zero a promises p h = refl
count_beyond (suc n) a promises p h =
    rw (count_beyond n a promises p (omega arith), update_ne promises a n p (ground arith)) refl

count_one_more :
    (n a : ℕ) (promises : ℕ → PromiseInfo) (p : PromiseInfo)
    → a < n
    → kept (promises a) ≡ 0
    → kept p ≡ 1
    → count_kept n (update promises a p) ≡ suc (count_kept n promises)
count_one_more zero a promises p h old new = absurd (omega arith)
count_one_more (suc n) a promises p h old new = elim (Bool-cases (a == n)) [
  | inl e ↦
      let q : a ≡ n = ground arith in
      subst
        (λ m.
          count_kept m (update promises a p) + kept (update promises a p m)
          ≡ suc (count_kept m promises + kept (promises m)))
        q
        (rw (count_beyond a a promises p (omega arith), update_self promises a p, old, new)
          (omega arith))
  | inr e ↦
      let h₁ = count_one_more n a promises p (ground arith) old new in
      rw (update_ne promises a n p (ground arith)) (omega (arith, h₁))
]

-- The count of a record that waits for promises is right and short of a quorum; a record that is
-- ready holds promises of a quorum of different acceptors.
abbrev pub CountedAs : StatusFlag → ProposerRecord → Type 0
CountedAs p1_new rec = Unit
CountedAs p1_pending rec =
    (minus_one <ℤ rec.iid)
    × (rec.promise_count ≡ count_kept n_of_acceptors rec.promises)
    × (rec.promise_count < quorum)
CountedAs p1_ready rec = (minus_one <ℤ rec.iid) × (quorum ≤ count_kept n_of_acceptors rec.promises)
CountedAs p1_finished rec = minus_one <ℤ rec.iid

abbrev pub IsCounted : ProposerRecord → Type 0
IsCounted rec = CountedAs rec.status rec

pub clear_counted :
    (rec : ProposerRecord) → minus_one <ℤ rec.iid → CountedAs p1_pending (clear_promises rec)
clear_counted rec h = (h, sym (count_none n_of_acceptors), omega arith)

-- A promise that was not held yet is one more.
pub with_promise-counts :
    (rec : ProposerRecord) (a : ℕ) (prom : PromiseMsg)
    → CountedAs p1_pending rec
    → a < n_of_acceptors
    → rec.iid ≡ prom.iid
    → eqb_ℤ (rec.promises a).iid minus_one ≡ true
    → suc rec.promise_count ≡ count_kept n_of_acceptors (with_promise rec a prom).promises
with_promise-counts rec a prom c h same free =
    ap suc c.1
    ∙ sym (
        count_one_more n_of_acceptors a rec.promises (kept_promise (rec.promises a) prom) h
          (rw free refl) new)
  where
    new_iid :
        (b : Bool)
        → (if b
            then record (rec.promises a) { iid = prom.iid; value_ballot = prom.value_ballot }
            else (record {
              iid = prom.iid;
              value_ballot = prom.value_ballot;
              value_size = prom.value_size;
              value = some (libfastpaxos.Base.take prom.value_size prom.value);
            })).iid
          ≡ prom.iid
    new_iid true = refl
    new_iid false = refl

    new : kept (kept_promise (rec.promises a) prom) ≡ 1
    new =
        let e = new_iid (eqb_ℤ prom.value_ballot minus_one) in
        let ne : eqb_ℤ prom.iid minus_one ≡ false = rw⁻¹ same (ground (arith, c.0)) in
        rw (e, ne) refl

pub pending_eq : (s : StatusFlag) → is_pending s ≡ true → s ≡ p1_pending
pending_eq p1_new e = absurd (false≢true e)
pending_eq p1_pending e = refl
pending_eq p1_ready e = absurd (false≢true e)
pending_eq p1_finished e = absurd (false≢true e)

pub ready_eq : (s : StatusFlag) → is_ready s ≡ true → s ≡ p1_ready
ready_eq p1_new e = absurd (false≢true e)
ready_eq p1_pending e = absurd (false≢true e)
ready_eq p1_ready e = refl
ready_eq p1_finished e = absurd (false≢true e)

-- A cleared record that is not ready counts right, also where it goes back to phase 1.
pub restart_counted :
    (s s' : StatusFlag) (rec : ProposerRecord) (b : ℤ)
    → is_ready s ≡ false
    → CountedAs s rec
    → CountedAs
        (if is_finished s then p1_pending else s)
        (clear_promises (record rec { status = s'; ballot = b }))
restart_counted p1_new s' rec b e c = tt
restart_counted p1_pending s' rec b e c = clear_counted (record rec { status = s'; ballot = b }) c.0
restart_counted p1_ready s' rec b e c = absurd (false≢true (sym e))
restart_counted p1_finished s' rec b e c = clear_counted (record rec { status = s'; ballot = b }) c
