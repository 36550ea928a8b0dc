-- ===== src/Tests/AnomalyRuns.antt =====
-- An acceptor over a database in memory, after messages that show the behaviour of its any flag.
use libfastpaxos.Base.{◌≡◌, ◌↔◌, refl, [], ◌∷◌, ◌++◌, some, none, arith, inl}
use libfastpaxos.Base.Int.{pos, ◌<ℤ◌}
use libfastpaxos.Message.{PrepareMsg, AcceptMsg}
use libfastpaxos.Disk.Entries.{entry}
use libfastpaxos.Disk.{AcceptorRecord}
use libfastpaxos.Config.{get_acc_index}
use libfastpaxos.Acceptor.State.{Acceptor, put_slot, written, send_learn_message}
use libfastpaxos.Acceptor.Cache.{save_at}
use libfastpaxos.Acceptor.Vote.{holder}
use libfastpaxos.Acceptor.Enable.{AnyOutcome, handle_anyval-Enables}
use libfastpaxos.Acceptor.Prepare.{handle_prepare}
use libfastpaxos.Acceptor.Accept.{handle_accept, handle_lsync}
use libfastpaxos.Acceptor.Anyval.{handle_anyval, enabled}
use libfastpaxos.Acceptor.Spec.{voted}
use libfastpaxos.Acceptor.Promise.{IsReady, recall}
use libfastpaxos.Acceptor.Safety.{promise_respected}
use libfastpaxos.Acceptor.Anomalies.{
  slot_of, lsync_answer, handle_lsync_overstates, handle_anyval_faults, any_flag_leaks,
}
use libfastpaxos.Tests.AcceptorRuns.{
  memory_db, memory_db-IsReliable, fresh, fresh-IsReady, uninit, prepare_five, accept_five,
}

promise_respected_example :
    handle_accept
      (handle_prepare fresh uninit prepare_five)
      uninit
      (record accept_five { ballot = pos 11 })
    ≡ handle_prepare fresh uninit prepare_five
unfolding handle_prepare libfastpaxos.Acceptor.Prepare.add_promise_to_send_buffer entry
    get_acc_index
promise_respected_example =
    promise_respected memory_db-IsReliable fresh prepare_five
      (record accept_five { ballot = pos 11 }) uninit uninit (omega arith) fresh-IsReady
      (omega arith) refl refl (omega arith) refl

-- The acceptor has voted in instance 5.
abbrev voter : Acceptor memory_db
voter = handle_accept fresh uninit accept_five

handle_lsync_overstates_example :
    (handle_lsync
      (handle_prepare voter uninit (record prepare_five { ballot = pos 30 }))
      uninit
      (pos 5)).sent
    ≡ (handle_prepare voter uninit (record prepare_five { ballot = pos 30 })).sent
      ++ (lsync_answer
            (handle_prepare voter uninit (record prepare_five { ballot = pos 30 }))
            (record (slot_of voter (pos 5)) { ballot = pos 30 })
          ∷ [])
unfolding handle_accept libfastpaxos.Acceptor.Accept.accept_and_learn send_learn_message
    get_acc_index
handle_lsync_overstates_example =
    handle_lsync_overstates voter uninit uninit (record prepare_five { ballot = pos 30 }) refl
      (omega arith) refl

handle_anyval_faults_example :
    (handle_anyval fresh uninit (pos 25) (pos 5) ≡ none)
    ↔ ((pos 5 <ℤ (slot_of fresh (pos 5)).iid) × (entry memory_db fresh.disk (pos 5) ≡ none))
handle_anyval_faults_example = handle_anyval_faults fresh uninit (pos 25) (pos 5)

handle_anyval-Enables_example :
    AnyOutcome memory_db-IsReliable fresh
      (pos 5)
      (pos 25)
      (omega arith)
      fresh-IsReady
      (holder fresh uninit (pos 5))
      (handle_anyval fresh uninit (pos 25) (pos 5))
handle_anyval-Enables_example =
    handle_anyval-Enables memory_db-IsReliable fresh (pos 5) (pos 25) (omega arith) fresh-IsReady
      uninit

-- The acceptor has taken an any message for instance 5.
abbrev any_record : AcceptorRecord
any_record = enabled (fresh.acceptor_array 5) (pos 5) (pos 20)

abbrev flagged : Acceptor memory_db
flagged = written (put_slot fresh (get_acc_index (pos 5)) any_record) any_record

flagged-IsReady : IsReady memory_db-IsReliable flagged
flagged-IsReady = record {
  coherent =
      save_at memory_db fresh.acceptor_array fresh.disk any_record memory_db-IsReliable
        (omega arith) fresh-IsReady.coherent (get_acc_index (pos 5)) refl (omega arith);
  measured = inl (refl, refl);
}

-- Instance 1029 has the slot of instance 5.
abbrev prepare_next : PrepareMsg
prepare_next = record { iid = pos 1029; ballot = pos 40 }

abbrev accept_next : AcceptMsg
accept_next = record accept_five { iid = pos 1029; ballot = pos 11 }

any_flag_leaks_example :
    recall memory_db-IsReliable
      (handle_accept (handle_prepare flagged uninit prepare_next) uninit accept_next)
      (pos 1029)
    ≡ some (voted accept_next)
unfolding get_acc_index
any_flag_leaks_example =
    any_flag_leaks memory_db-IsReliable flagged prepare_next accept_next uninit uninit (omega arith)
      flagged-IsReady (omega arith) (omega arith) refl refl
