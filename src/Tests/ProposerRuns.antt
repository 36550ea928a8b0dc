-- ===== src/Tests/ProposerRuns.antt =====
-- A proposer with number 3 that submits a value and sees deliveries.
use libfastpaxos.Base.{◌≡◌, refl, [], ◌∷◌, ◌++◌, arith, true, false, some, All, ◌≤◌}
use libfastpaxos.Base.Int.{ℤ, pos, ◌≤ℤ◌, ◌<ℤ◌, ◌+ℤ◌}
use libfastpaxos.Config.{min_ballot, first_ballot, max_udp_msg_size}
use libfastpaxos.Message.{wire_size}
use libfastpaxos.Learner.{Delivery}
use libfastpaxos.Proposer.{
  Proposer, InitCalls, TimeoutInfo, proposer_start, proposer_init, proposer_submit_value,
  proposer_deliver_callback, accept_packet, value_owner,
}
use libfastpaxos.Proposer.Ballots.{nth_ballot, ballots_name_their_owner}
use libfastpaxos.Proposer.Retry.{
  time_out, guard_of, copies, IsStale, submit_and_retry, skip_disarms,
}
use libfastpaxos.Proposer.Wake.{own_value_wakes}

abbrev pub three : Proposer
three = record proposer_start { proposer_id = pos 3; fixed_ballot = pos 13 }

abbrev waiting_three : Proposer
waiting_three = record three {
  client_waiting = true;
  last_accept_hash = pos 1;
  has_client_func = true;
  timers = record { instance_id = pos 0; hash = pos 1 } ∷ [];
}

abbrev value_of : ℤ → Delivery
value_of owner = record {
  value = 7 ∷ 8 ∷ [];
  size = pos 2;
  iid = pos 0;
  ballot = pos 23;
  proposer_id = owner;
}

abbrev all_well : InitCalls
all_well = record { mutex_ok = true; socket_ok = true; leader_ok = true }

ballots_name_their_owner_example :
    (min_ballot ≤ℤ nth_ballot 2 (first_ballot (pos 3)))
    × (value_owner (nth_ballot 2 (first_ballot (pos 3))) ≡ pos 3)
    × ((proposer_init proposer_start all_well (pos 3) true).1.fixed_ballot <ℤ min_ballot)
    × (value_owner (proposer_init proposer_start all_well (pos 3) true).1.fixed_ballot ≡ pos 3)
ballots_name_their_owner_example = ballots_name_their_owner 2 3 proposer_start true (omega arith)

abbrev submitted : Proposer
submitted = proposer_submit_value three (7 ∷ 8 ∷ []) 2

submit_and_retry_example :
    ((time_out 2 submitted).sent ≡ three.sent ++ copies 3 (accept_packet submitted))
    × ((time_out 2 submitted).client_waiting ≡ true)
    × ((time_out 2 submitted).timers ≡ guard_of (time_out 2 submitted) ∷ [])
    × ((accept_packet submitted).size ≡ wire_size (accept_packet submitted).msg)
    × ((accept_packet submitted).size ≤ max_udp_msg_size)
submit_and_retry_example = submit_and_retry 2 three (7 ∷ 8 ∷ []) 2 (omega arith) refl

skip_disarms_example :
    (p' : Proposer) × (proposer_deliver_callback waiting_three (value_of (pos 4)) ≡ some p')
    × (p'.sent ≡ waiting_three.sent ++ (accept_packet p' ∷ []))
    × (p'.amsg ≡ record waiting_three.amsg { iid = waiting_three.current_iid +ℤ pos 1 })
    × All (IsStale p') p'.timers
skip_disarms_example =
    skip_disarms waiting_three (value_of (pos 4)) refl refl refl (omega arith, tt)

own_value_wakes_example :
    (p' : Proposer) × (proposer_deliver_callback waiting_three (value_of (pos 3)) ≡ some p')
    × (p'.client_waiting ≡ false)
    × (p'.current_iid ≡ waiting_three.current_iid +ℤ pos 1)
    × (p'.sent ≡ waiting_three.sent)
    × (p'.client_log ≡ waiting_three.client_log ++ (value_of (pos 3) ∷ []))
    × ((ti : TimeoutInfo) → IsStale p' ti)
own_value_wakes_example = own_value_wakes waiting_three (value_of (pos 3)) refl refl refl
