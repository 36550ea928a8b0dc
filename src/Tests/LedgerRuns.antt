-- ===== src/Tests/LedgerRuns.antt =====
-- A leader with number 3 that asks for a value of instance 0 again in its next ballot.
use libfastpaxos.Base.{All, arith, ◌≡◌, refl, [], ◌∷◌, Option, none, some}
use libfastpaxos.Base.Int.{ℤ, pos, ◌+ℤ◌, ◌-ℤ◌}
use libfastpaxos.Config.{get_pro_index}
use libfastpaxos.Message.{PromiseMsg}
use libfastpaxos.Leader.State.{Leader, add_prepare_to_buffer}
use libfastpaxos.Leader.Phase1.{
  leader_init, handle_promise, execute_phase1, open_instances, open_instance,
}
use libfastpaxos.Leader.Phase2.{
  leader_handle_promise_msg, phase2_check_cb, handle_promises, execute_phase2, phase2_instances,
  phase2_instance, phase2_value, scan_promises, send_accept,
}
use libfastpaxos.Leader.Ledger.{accepts, Apart, AllApart}
use libfastpaxos.Leader.OneValue.{
  Ran, started, promised, p2_checked, one_value_per_ballot, leaders-Apart,
}

-- The promise of an acceptor that has accepted a value of instance 0.
abbrev reports : ℤ → PromiseMsg
reports ballot = record {
  iid = pos 0;
  ballot = ballot;
  value_ballot = pos 11;
  value_size = 1;
  value = 7 ∷ [];
}

abbrev or_same : Leader → Option Leader → Leader
or_same st none = st
or_same st (some st') = st'

abbrev hear : Leader → ℤ → ℤ → Leader
hear st ballot a = or_same st (leader_handle_promise_msg st a (reports ballot ∷ []))

hears : {id : ℤ} (st : Leader) (ballot a : ℤ) → Ran id st → Ran id (hear st ballot a)
hears {id = id} st ballot a r = next (leader_handle_promise_msg st a (reports ballot ∷ [])) refl
  where
    next :
        (o : Option Leader)
        → leader_handle_promise_msg st a (reports ballot ∷ []) ≡ o
        → Ran id (or_same st o)
    next none e = r
    next (some st') e = promised st st' a (reports ballot ∷ []) r e

abbrev hear_all : Leader → ℤ → Leader
hear_all st ballot = hear (hear (hear st ballot (pos 0)) ballot (pos 1)) ballot (pos 2)

hears_all : {id : ℤ} (st : Leader) (ballot : ℤ) → Ran id st → Ran id (hear_all st ballot)
hears_all st ballot r =
    let one = hears st ballot (pos 0) r in
    let two = hears (hear st ballot (pos 0)) ballot (pos 1) one in
    hears (hear (hear st ballot (pos 0)) ballot (pos 1)) ballot (pos 2) two

abbrev check : Leader → Leader
check st = or_same st (phase2_check_cb st)

checks : {id : ℤ} (st : Leader) → Ran id st → Ran id (check st)
checks {id = id} st r = next (phase2_check_cb st) refl
  where
    next : (o : Option Leader) → phase2_check_cb st ≡ o → Ran id (or_same st o)
    next none e = r
    next (some st') e = p2_checked st st' r e

-- The value is not learned in time, and the leader starts over.
abbrev asked_twice : Leader
asked_twice = hear_all (check (hear_all (leader_init (pos 3)) (pos 23))) (pos 33)

asks_twice :
    accepts asked_twice.sent
    ≡ record { iid = pos 0; ballot = pos 23; value_size = 1; proposer_id = pos 1; value = 7 ∷ [] }
      ∷ record { iid = pos 0; ballot = pos 33; value_size = 1; proposer_id = pos 1; value = 7 ∷ [] }
      ∷ []
unfolding leader_init execute_phase1 open_instances open_instance get_pro_index ◌+ℤ◌ ◌-ℤ◌
    add_prepare_to_buffer leader_handle_promise_msg handle_promises handle_promise execute_phase2
    phase2_instances phase2_instance phase2_value scan_promises send_accept phase2_check_cb
asks_twice = refl

one_value_per_ballot_example : AllApart (accepts asked_twice.sent)
one_value_per_ballot_example = one_value_per_ballot (pos 3) asked_twice (
    hears_all (check (hear_all (leader_init (pos 3)) (pos 23))) (pos 33) (
      checks (hear_all (leader_init (pos 3)) (pos 23))
        (hears_all (leader_init (pos 3)) (pos 23) started)))

-- The run of a leader that asks for one value.
abbrev asks_once : Leader
asks_once = hear_all (leader_init (pos 4)) (pos 24)

leaders-Apart_example : All (λ a. All (Apart a) (accepts asks_once.sent)) (accepts asked_twice.sent)
leaders-Apart_example =
    leaders-Apart 3 4 asked_twice asks_once (omega arith) (omega arith) (λ e. omega (arith, e))
      (hears_all (check (hear_all (leader_init (pos 3)) (pos 23))) (pos 33) (
        checks (hear_all (leader_init (pos 3)) (pos 23))
          (hears_all (leader_init (pos 3)) (pos 23) started)))
      (hears_all (leader_init (pos 4)) (pos 24) started)
