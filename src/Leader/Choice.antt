-- ===== src/Leader/Choice.antt =====
-- The value that phase 2 of lib/leader.c takes from the promises of a record.
use libfastpaxos.Base.{
  ℕ, zero, suc, ◌+◌, ◌<◌, ◌≡◌, refl, sym, subst, Bool, true, not, ◌&&◌, Option, none, some, arith,
  Bool-cases, inl, inr, ◌==◌,
}
use libfastpaxos.Base.Int.{ℤ, minus_one, ◌≤ℤ◌, eqb_ℤ, ltb_ℤ}
use libfastpaxos.Config.{n_of_acceptors}
use libfastpaxos.Leader.State.{PromiseInfo, ProposerRecord}
use libfastpaxos.Leader.Phase2.{scan_promises, phase2_value}

-- A promise was received, and it reports an accepted value.
abbrev pub carries : PromiseInfo → Bool
carries p = not (eqb_ℤ p.iid minus_one) && not (eqb_ℤ p.value_ballot minus_one)

-- No value of the first `n` promises has a higher ballot than `b`.
abbrev pub IsTop : (ℕ → PromiseInfo) → ℕ → ℤ → Type 0
IsTop promises n b = (j : ℕ) → j < n → carries (promises j) ≡ true → (promises j).value_ballot ≤ℤ b

-- `b` is the ballot of the chosen promise, one of the first `n`.
abbrev pub IsFrom : (ℕ → PromiseInfo) → ℕ → ℤ → Option PromiseInfo → Type 0
IsFrom promises n b none = b ≡ minus_one
IsFrom promises n b (some p) =
    (k : ℕ) × (k < n) × (promises k ≡ p) × (carries p ≡ true) × (p.value_ballot ≡ b)

abbrev pub Chosen : (ℕ → PromiseInfo) → ℕ → ℤ → Option PromiseInfo → Type 0
Chosen promises n b pi = IsTop promises n b × IsFrom promises n b pi

IsTop-suc :
    (promises : ℕ → PromiseInfo) (i : ℕ) (b b' : ℤ)
    → IsTop promises i b
    → b ≤ℤ b'
    → (carries (promises i) ≡ true → (promises i).value_ballot ≤ℤ b')
    → IsTop promises (suc i) b'
IsTop-suc promises i b b' top le own j lt c = elim (Bool-cases (j == i)) [
  | inl e ↦
      let p : i ≡ j = ground arith in
      subst (λ x. (carries (promises x) ≡ true) → (promises x).value_ballot ≤ℤ b') p own c
  | inr e ↦ let h = top j (ground arith) c in omega (arith, h, le)
]

IsFrom-suc :
    (promises : ℕ → PromiseInfo) (i : ℕ) (b : ℤ) (pi : Option PromiseInfo)
    → IsFrom promises i b pi
    → IsFrom promises (suc i) b pi
IsFrom-suc promises i b none e = e
IsFrom-suc promises i b (some p) (k, lt, at, y, e) = (k, omega arith, at, y, e)

scan-Chosen :
    (promises : ℕ → PromiseInfo) (n i : ℕ) (b : ℤ) (pi : Option PromiseInfo)
    → Chosen promises i b pi
    → (b' : ℤ) × Chosen promises (i + n) b' (scan_promises promises n i b pi)
unfolding scan_promises
scan-Chosen promises zero i b pi c = (b, subst (λ m. Chosen promises m b pi) (omega arith) c)
scan-Chosen promises (suc n) i b pi c =
    let p = promises i in
    elim (Bool-cases (
      not (eqb_ℤ p.iid minus_one)
      && (not (eqb_ℤ p.value_ballot minus_one) && ltb_ℤ b p.value_ballot))) [
        | inl y ↦
            let c' : Chosen promises (suc i) p.value_ballot (some p) = (
              IsTop-suc promises i b p.value_ballot c.0 (ground arith) (λ _. omega arith),
              (i, omega arith, refl, ground arith, refl),
            ) in
            let (b', r) = scan-Chosen promises n (suc i) p.value_ballot (some p) c' in
            (
              b',
              rw y (
                  subst
                    (λ m.
                      Chosen promises m b'
                        (scan_promises promises n (suc i) p.value_ballot (some p)))
                    (omega arith) r),
            )
        | inr z ↦
            let c' : Chosen promises (suc i) b pi = (
              IsTop-suc promises i b b c.0 (omega arith) (λ h. ground arith),
              IsFrom-suc promises i b pi c.1,
            ) in
            let (b', r) = scan-Chosen promises n (suc i) b pi c' in
            (
              b',
              rw z (
                  subst (λ m. Chosen promises m b' (scan_promises promises n (suc i) b pi))
                    (omega arith) r),
            )
      ]

-- What phase 2 takes: nothing if no promise reports a value, else a value of the highest ballot.
abbrev pub Highest : (ℕ → PromiseInfo) → Option PromiseInfo → Type 0
Highest promises none = IsTop promises n_of_acceptors minus_one
Highest promises (some p) =
    (k : ℕ) × (k < n_of_acceptors)
    × (promises k ≡ p)
    × (carries p ≡ true)
    × IsTop promises n_of_acceptors p.value_ballot

-- `phase2_value` finds no value exactly when no promise of the record reports one with a ballot
-- above -1; else it takes a promise that is in the record and reports a value, and no other
-- reported value has a higher ballot.
pub phase2_value-Highest : (rec : ProposerRecord) → Highest rec.promises (phase2_value rec)
unfolding phase2_value
phase2_value-Highest rec =
    let (b, c) =
      scan-Chosen rec.promises n_of_acceptors 0 minus_one none
        ((λ j lt. absurd (omega arith)), refl) in
    highest b _ c
  where
    highest :
        (b : ℤ) (pi : Option PromiseInfo)
        → Chosen rec.promises n_of_acceptors b pi
        → Highest rec.promises pi
    highest b none (top, e) = subst (IsTop rec.promises n_of_acceptors) e top
    highest b (some p) (top, (k, lt, at, y, e)) =
        (k, lt, at, y, subst (IsTop rec.promises n_of_acceptors) (sym e) top)
