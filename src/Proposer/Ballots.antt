-- ===== src/Proposer/Ballots.antt =====
-- The ballots of proposers and leaders: each names its proposer, and those of proposers lie below
-- those of leaders.
use libfastpaxos.Base.{ℕ, zero, suc, ◌+◌, ◌*◌, ◌<◌, ◌≡◌, ap, ◌∙◌, arith, Bool, true, false, ◌&&◌}
use libfastpaxos.Base.Int.{ℤ, pos, ◌+ℤ◌, ◌≤ℤ◌, ◌<ℤ◌}
use libfastpaxos.Config.{max_proposers, min_ballot, first_ballot, ballot_next}
use libfastpaxos.Proposer.{Proposer, proposer_init, value_owner}

-- The ballot of a leader after `k` rounds in one instance.
abbrev pub nth_ballot : ℕ → ℤ → ℤ
nth_ballot zero b = b
nth_ballot (suc k) b = ballot_next (nth_ballot k b)

pos-+ℤ : (a b : ℕ) → pos a +ℤ pos b ≡ pos (a + b)
unfolding ◌+ℤ◌
pos-+ℤ a b = ground arith

nth_ballot-pos : (k n : ℕ) → nth_ballot k (pos n) ≡ pos (n + k * 10)
nth_ballot-pos zero n = ap pos (omega arith)
nth_ballot-pos (suc k) n =
    ap ballot_next (nth_ballot-pos k n) ∙ pos-+ℤ (n + k * 10) 10 ∙ ap pos (omega arith)

-- For any proposer number below the maximum, every ballot of a leader, in any round, is at least
-- `min_ballot` and names the leader by `VALUE_OWNER`; the ballot that a successful `proposer_init`
-- fixes is less than `min_ballot`, and names its proposer too.
pub ballots_name_their_owner :
    (k n : ℕ) (p : Proposer) (is_leader : Bool)
    → n < max_proposers
    → let b = nth_ballot k (first_ballot (pos n)) in
      let fixed =
        (proposer_init p
          (record { mutex_ok = true; socket_ok = true; leader_ok = true })
          (pos n)
          is_leader).1.fixed_ballot in
      (min_ballot ≤ℤ b)
      × (value_owner b ≡ pos n)
      × (fixed <ℤ min_ballot)
      × (value_owner fixed ≡ pos n)
unfolding proposer_init
ballots_name_their_owner k n p is_leader h =
    let e : nth_ballot k (first_ballot (pos n)) ≡ pos (20 + n + k * 10) =
      ap (nth_ballot k) (pos-+ℤ 20 n) ∙ nth_ballot-pos k (20 + n) in
    let no : is_leader && false ≡ false = ground arith in
    rw (e, no, pos-+ℤ 10 n) (omega arith, ap pos (omega arith), omega arith, ap pos (omega arith))
