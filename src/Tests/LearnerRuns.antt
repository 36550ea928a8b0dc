-- ===== src/Tests/LearnerRuns.antt =====
-- A learner that reads the votes of three acceptors.
use libfastpaxos.Base.{
  ◌==◌, if◌then◌else◌, none, ℕ, ◌<◌, ◌≡◌, refl, List, [], ◌∷◌, some, arith, All, true, ltb,
}
use libfastpaxos.Base.Int.{◌+ℤ◌, ◌-ℤ◌, ℤ, pos, minus_one}
use libfastpaxos.Config.Quorum.{three_quorums_meet}
use libfastpaxos.Message.{LearnMsg, PaxosMsg, learn}
use libfastpaxos.Learner.{Learner, Delivery, init, handle_all}
use libfastpaxos.Message.{Packet, Fits}
use libfastpaxos.Learner.{zero_record}
use libfastpaxos.Learner.Sync.{lsync_check}
use libfastpaxos.Learner.Retransmit.{asked, missing, lsync_check-asks}
use libfastpaxos.Learner.Window.{Consecutive, IsIdle}
use libfastpaxos.Learner.Handle.{handle_all_in_order}
use libfastpaxos.Learner.Evidence.{Backed}
use libfastpaxos.Learner.Votes.{delivered-Backed}

abbrev vote : ℕ → ℤ → ℤ → LearnMsg
vote acceptor iid ballot = record {
  acceptor_id = pos acceptor;
  iid = iid;
  ballot = ballot;
  proposer_id = pos 1;
  value_size = 2;
  value = 7 ∷ 8 ∷ [];
}

-- The votes for instance 1 arrive before those for instance 0.
abbrev votes : List PaxosMsg
votes =
    learn (vote 0 (pos 1) (pos 11))
    ∷ learn (vote 1 (pos 1) (pos 11))
    ∷ learn (vote 2 (pos 1) (pos 11))
    ∷ learn (vote 0 (pos 0) (pos 11))
    ∷ learn (vote 2 (pos 0) (pos 11))
    ∷ learn (vote 1 (pos 0) (pos 11))
    ∷ []

abbrev delivery : ℤ → Delivery
delivery iid = record {
  value = 7 ∷ 8 ∷ [];
  size = pos 2;
  iid = iid;
  ballot = pos 11;
  proposer_id = pos 1;
}

abbrev after_votes : Learner
after_votes = (handle_all_in_order votes).0

handle_all_in_order_example :
    (l : Learner) × (handle_all init votes ≡ some l)
    × Consecutive minus_one l.delivered l.highest_delivered
    × IsIdle l
handle_all_in_order_example = handle_all_in_order votes

abbrev OfBallot : LearnMsg → Type 0
OfBallot m = m.ballot ≡ pos 11

delivered-Backed_example : All (Backed OfBallot) after_votes.delivered
delivered-Backed_example =
    delivered-Backed OfBallot votes after_votes (refl, (refl, (refl, (refl, (refl, (refl, tt))))))
      (handle_all_in_order votes).1

three_quorums_meet_example :
    (i : ℕ) × (i < 4) × (ltb i 3 ≡ true) × (ltb 0 i ≡ true) × (ltb 0 i ≡ true)
three_quorums_meet_example =
    three_quorums_meet 4 (λ i. ltb i 3) (λ i. ltb 0 i) (λ i. ltb 0 i) (omega arith) (omega arith)
      (omega arith) (omega arith)

-- Instances 0 to 3 were seen; 1 is closed.
abbrev behind : Learner
behind = record {
  highest_delivered = minus_one;
  highest_seen = pos 3;
  learner_array = λ k. record zero_record {
    iid = if k == 1 then pos 1 else minus_one;
    final_value = if k == 1 then some (7 ∷ []) else none;
  };
  delivered = [];
  sent = [];
}

lsync_check-asks_example :
    (ps : List Packet) × (lsync_check behind ≡ record behind { sent = ps })
    × (asked ps ≡ missing behind.learner_array 3 (pos 0))
    × All Fits ps
unfolding ◌+ℤ◌ ◌-ℤ◌
lsync_check-asks_example = lsync_check-asks behind
