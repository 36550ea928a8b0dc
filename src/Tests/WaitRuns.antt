-- ===== src/Tests/WaitRuns.antt =====
-- A client that waits while the values of two others are delivered.
use libfastpaxos.Base.{◌≡◌, refl, List, [], ◌∷◌, ◌++◌, arith, false, some}
use libfastpaxos.Base.Int.{ℤ, pos, ◌+ℤ◌}
use libfastpaxos.Learner.{Delivery}
use libfastpaxos.Proposer.{Proposer, accept_packet, proposer_submit_value, wait_delivered}
use libfastpaxos.Proposer.Wait.{EndsWith, retries, submit_is_woken}
use libfastpaxos.Tests.ProposerRuns.{three}

abbrev delivery : ℤ → ℤ → Delivery
delivery iid owner = record {
  value = 7 ∷ 8 ∷ [];
  size = pos 2;
  iid = iid;
  ballot = pos 23;
  proposer_id = owner;
}

abbrev others : List Delivery
others = delivery (pos 0) (pos 4) ∷ delivery (pos 1) (pos 5) ∷ []

in_order : EndsWith (pos 3) (pos 0) others (delivery (pos 2) (pos 3))
unfolding ◌+ℤ◌
in_order = (refl, refl, (refl, refl, (refl, refl)))

abbrev start : Proposer
start = proposer_submit_value three (7 ∷ 8 ∷ []) 2

submit_is_woken_example :
    (p' : Proposer) × (wait_delivered start
        (others ++ (delivery (pos 2) (pos 3) ∷ delivery (pos 3) (pos 3) ∷ []))
      ≡ some p')
    × (p'.client_waiting ≡ false)
    × (p'.sent ≡ three.sent ++ (accept_packet start ∷ retries start.amsg start.msg_size others))
submit_is_woken_example =
    submit_is_woken three (7 ∷ 8 ∷ []) 2 others (delivery (pos 2) (pos 3))
      (delivery (pos 3) (pos 3) ∷ []) (omega arith) in_order
