-- ===== src/Tests/LeaderRuns.antt =====
-- A leader with number 3 that hears three acceptors.
use libfastpaxos.Base.{
  arith, All, ◌≡◌, ◌≤◌, refl, List, [], ◌∷◌, Option, none, some, ◌==◌, if◌then◌else◌, ◌+◌,
}
use libfastpaxos.Base.Int.{ℤ, pos, minus_one, ◌+ℤ◌, ◌-ℤ◌}
use libfastpaxos.Config.{n_of_acceptors, quorum, get_pro_index, ballot_next}
use libfastpaxos.Message.{PromiseMsg, Fits}
use libfastpaxos.Leader.State.{
  Leader, ProposerRecord, p1_ready, zero_proposer_record, add_prepare_to_buffer,
}
use libfastpaxos.Leader.Phase1.{
  leader_start, leader_init, phase1_check_cb, handle_promise, execute_phase1, open_instances,
  open_instance,
}
use libfastpaxos.Leader.Phase2.{
  phase2_value, leader_handle_promise_msg, phase2_check_cb, handle_promises, execute_phase2,
  phase2_instances, phase2_instance,
}
use libfastpaxos.Leader.Choice.{Highest, phase2_value-Highest}
use libfastpaxos.Leader.Bounds.{phase1_check-Fits}
use libfastpaxos.Leader.AnyBounds.{execute_phase2-Fits}
use libfastpaxos.Leader.Counts.{count_kept}
use libfastpaxos.Leader.Restart.{phase2_check_keeps_ready}
use libfastpaxos.Leader.Reached.{Reached, started, promised, ready_has_quorum}

abbrev promise_for : ℤ → PromiseMsg
promise_for iid = record {
  iid = iid;
  ballot = pos 23;
  value_ballot = minus_one;
  value_size = 0;
  value = [];
}

abbrev hear : Leader → ℤ → List PromiseMsg → Leader
hear st a proms = elim (leader_handle_promise_msg st a proms) [ none ↦ st | some st' ↦ st' ]

abbrev one : Leader
one = hear (leader_init (pos 3)) (pos 0) (promise_for (pos 0) ∷ [])

abbrev two : Leader
two = hear one (pos 1) (promise_for (pos 0) ∷ [])

-- The batch names instance 0 last, after a higher one.
abbrev ready_leader : Leader
ready_leader = hear two (pos 2) (promise_for (pos 1) ∷ promise_for (pos 0) ∷ [])

hears :
    (st : Leader) (a : ℤ) (proms : List PromiseMsg)
    → Reached (pos 3) st
    → Reached (pos 3) (hear st a proms)
hears st a proms r = next (leader_handle_promise_msg st a proms) refl
  where
    next :
        (o : Option Leader)
        → leader_handle_promise_msg st a proms ≡ o
        → Reached (pos 3) (elim o [ none ↦ st | some st' ↦ st' ])
    next none e = r
    next (some st') e = promised st st' a proms r e

ready_is_ready : (ready_leader.proposer_array 0).status ≡ p1_ready
unfolding leader_init execute_phase1 open_instances open_instance get_pro_index ◌+ℤ◌ ◌-ℤ◌
    add_prepare_to_buffer leader_handle_promise_msg handle_promises handle_promise execute_phase2
    phase2_instances phase2_instance
ready_is_ready = refl

ready_has_quorum_example :
    quorum ≤ count_kept n_of_acceptors (ready_leader.proposer_array 0).promises
ready_has_quorum_example =
    ready_has_quorum (pos 3) ready_leader 0
      (hears two (pos 2) (promise_for (pos 1) ∷ promise_for (pos 0) ∷ []) (
        hears one (pos 1) (promise_for (pos 0) ∷ [])
          (hears (leader_init (pos 3)) (pos 0) (promise_for (pos 0) ∷ []) started)))
      ready_is_ready

-- A leader whose record of instance 0 is ready, with no progress since the last check.
abbrev stuck : Leader
stuck = record (leader_start (pos 3)) {
  proposer_array =
      λ k. record zero_proposer_record { status = p1_ready; ballot = pos 23; promise_count = 3 };
}

phase2_check_keeps_ready_example :
    (st' : Leader) × (phase2_check_cb stuck ≡ some st')
    × ((st'.proposer_array (get_pro_index (pos 0))).status ≡ p1_ready)
    × ((st'.proposer_array (get_pro_index (pos 0))).ballot ≡ ballot_next (pos 23))
    × (count_kept n_of_acceptors (st'.proposer_array (get_pro_index (pos 0))).promises ≡ 0)
phase2_check_keeps_ready_example = phase2_check_keeps_ready stuck refl refl refl

-- Two promises of three report a value, the second with the higher ballot.
abbrev reporting : ProposerRecord
reporting = record zero_proposer_record {
  promises = λ j. record {
    iid = pos 0;
    value_ballot = if j == 0 then minus_one else pos (20 + j);
    value_size = 1;
    value = some (j ∷ []);
  };
}

phase2_value-Highest_example : Highest reporting.promises (phase2_value reporting)
phase2_value-Highest_example = phase2_value-Highest reporting

phase1_check-Fits_example : All Fits (phase1_check_cb (leader_start (pos 3))).sent
phase1_check-Fits_example = phase1_check-Fits (leader_start (pos 3)) tt

-- The record of instance 0 is ready, with the values reported above.
abbrev with_values : Leader
with_values = record (leader_start (pos 3)) {
  proposer_array = λ k. record reporting { status = p1_ready; ballot = pos 23 };
}

execute_phase2-Fits_example : All Fits (execute_phase2 with_values (pos 0) (pos 2)).sent
execute_phase2-Fits_example =
    execute_phase2-Fits with_values (pos 0) (pos 2) tt (λ k a. omega arith)
