-- ===== src/Tests/KeptRuns.antt =====
-- An acceptor that promised ballot 30 of instance 5, and then hears lower ballots and a learner.
use mathlib.Core.List.{Memᴰ}
use libfastpaxos.Base.{◌≡◌, refl, List, [], ◌∷◌, some, true, arith, All, ◌⊎◌}
use libfastpaxos.Base.Int.{ℤ, pos, ◌≤ℤ◌, ◌+ℤ◌}
use libfastpaxos.Message.{PrepareMsg, PaxosMsg, prepare_batch, accept, learner_sync}
use libfastpaxos.Disk.{Uninit, disk_update_record}
use libfastpaxos.Disk.Entries.{IsIid, entry}
use libfastpaxos.Acceptor.State.{Acceptor}
use libfastpaxos.Acceptor.Prepare.{handle_prepare, add_promise_to_send_buffer}
use libfastpaxos.Acceptor.Spec.{ballot_of}
use libfastpaxos.Acceptor.Promise.{IsReady, recall, handle_prepare-Answers}
use libfastpaxos.Acceptor.Clear.{IsNotLater, prepare-IsClear}
use libfastpaxos.Acceptor.Firm.{IsAbove}
use libfastpaxos.Acceptor.Kept.{run, IsOrderly, promise_kept}
use libfastpaxos.Tests.AcceptorRuns.{
  memory_db, memory_db-IsReliable, fresh, fresh-IsReady, prepare_five, accept_five,
}

-- What `malloc` returns has an any flag by chance.
abbrev garbage : Uninit
garbage = record { proposer_id = pos 0; any_enabled = true }

abbrev promise_thirty : PrepareMsg
promise_thirty = record { iid = pos 5; ballot = pos 30 }

abbrev promised : Acceptor memory_db
promised = handle_prepare fresh garbage promise_thirty

abbrev events : List ((ℤ → Uninit) × PaxosMsg)
events =
    ((λ _. garbage), accept accept_five)
    ∷ ((λ _. garbage), prepare_batch (prepare_five ∷ []))
    ∷ ((λ _. garbage), learner_sync (pos 5 ∷ []))
    ∷ []

promised-bound : pos 30 ≤ℤ ballot_of (recall memory_db-IsReliable promised (pos 5))
unfolding handle_prepare add_promise_to_send_buffer entry disk_update_record ◌+ℤ◌
promised-bound = omega arith

events-IsOrderly : All (IsOrderly (pos 5)) events
events-IsOrderly =
    let five : IsIid (pos 5) = omega arith in
    let near : IsNotLater (pos 5) (pos 5) = λ _. omega arith in
    ((five, tt, near), ((((five, omega arith), tt), tt, (near, tt)), (((five, tt), tt, tt), tt)))

promise_kept_example :
    (st' : Acceptor memory_db) × (run promised events ≡ some st')
    × IsReady memory_db-IsReliable st'
    × (pos 30 ≤ℤ ballot_of (recall memory_db-IsReliable st' (pos 5)))
    × All (λ p. Memᴰ p promised.sent ⊎ IsAbove (pos 5) (pos 30) p.msg) st'.sent
promise_kept_example =
    let a =
      handle_prepare-Answers memory_db-IsReliable fresh promise_thirty (omega arith) fresh-IsReady
        garbage (omega arith) in
    promise_kept memory_db-IsReliable (pos 5) (pos 30) events promised (omega arith) a.ready
      (prepare-IsClear (pos 5) fresh garbage promise_thirty
        (record { slots = λ k. (refl, λ _. omega arith) }) (λ _. omega arith))
      promised-bound events-IsOrderly
