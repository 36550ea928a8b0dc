-- ===== src/Config/Quorum.antt =====
-- The quorum that the learner and the leader compute from the number of acceptors.
use libfastpaxos.Base.{
  ℕ, zero, suc, ◌+◌, ◌*◌, ◌≤◌, ◌<◌, ◌≡◌, Bool, true, ◌&&◌, arith, if◌then◌else◌, Bool-cases, inl,
  inr,
}
use libfastpaxos.Config.{quorum_of}

-- How many of the first `n` acceptors are in the set `q`.
abbrev pub size_of : (ℕ → Bool) → ℕ → ℕ
size_of q zero = 0
size_of q (suc n) = if q n then suc (size_of q n) else size_of q n

size_of_three :
    (p q r : ℕ → Bool) (n : ℕ)
    → size_of p n + size_of q n + size_of r n ≤ 2 * n + size_of (λ i. p i && q i && r i) n
size_of_three p q r zero = omega arith
size_of_three p q r (suc n) = ground (arith, size_of_three p q r n)

size_of_member : (q : ℕ → Bool) (n : ℕ) → 0 < size_of q n → (i : ℕ) × (i < n) × (q i ≡ true)
size_of_member q zero h = absurd (omega arith)
size_of_member q (suc n) h = elim (Bool-cases (q n)) [
  | inl e ↦ (n, omega arith, e)
  | inr e ↦ let rest = size_of_member q n (ground arith) in (rest.0, omega (arith, rest.1), rest.2)
]

-- A quorum is at most all the acceptors, so it can be reached.
pub quorum_of-le : (n : ℕ) → 0 < n → quorum_of n ≤ n
quorum_of-le n h = omega arith

-- Any three sets of acceptors that are quorums have an acceptor in common, whatever the number of
-- acceptors: the condition of Fast Paxos on fast quorums.
pub three_quorums_meet :
    (n : ℕ) (p q r : ℕ → Bool)
    → 0 < n
    → quorum_of n ≤ size_of p n
    → quorum_of n ≤ size_of q n
    → quorum_of n ≤ size_of r n
    → (i : ℕ) × (i < n) × (p i ≡ true) × (q i ≡ true) × (r i ≡ true)
three_quorums_meet n p q r h hp hq hr =
    let m = size_of_member (λ i. p i && q i && r i) n (omega (arith, size_of_three p q r n)) in
    (m.0, m.1, ground (arith, m.2), ground (arith, m.2), ground (arith, m.2))
