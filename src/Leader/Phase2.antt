-- ===== src/Leader/Phase2.antt =====
-- Phase 2 in lib/leader.c: for an instance that a quorum has promised, the value of the highest
-- ballot or an any message, and the dispatch of messages.
use libfastpaxos.Base.{
  ℕ, zero, suc, ◌+◌, Bool, false, not, ◌&&◌, List, [], ◌∷◌, ◌++◌, Option, none, some, ltb,
  if◌then◌else◌, take, update,
}
use libfastpaxos.Base.Int.{ℤ, pos, negsuc, minus_one, ◌+ℤ◌, ◌-ℤ◌, ltb_ℤ, eqb_ℤ}
use libfastpaxos.Config.{n_of_acceptors, get_pro_index, ballot_next}
use libfastpaxos.Message.{
  PromiseMsg, PaxosMsg, prepare_batch, accept, learner_sync, promise_batch, learn, anyval,
  unknown_type, acceptors_net, sizeof_paxos_msg, sizeof_accept_msg, sizeof_promise_batch_msg,
}
use libfastpaxos.Disk.{bytes}
use libfastpaxos.Proposer.{value_owner}
use libfastpaxos.Leader.State.{
  p1_pending, p1_finished, is_ready, is_finished, PromiseInfo, ProposerRecord, Phase1Info, Leader,
  flush_send_buffer, new_batch, add_prepare_to_buffer, new_anymsg, append_anymsg_to_buffer,
  clear_promises, rounds_between,
}
use libfastpaxos.Leader.Phase1.{handle_promise}

-- The loop of `phase2_value` from `i`, with `n` rounds left: `max_ballot` and `pi` so far.
unfoldable pub scan_promises :
    (ℕ → PromiseInfo) → ℕ → ℕ → ℤ → Option PromiseInfo → Option PromiseInfo
scan_promises promises zero i max_ballot pi = pi
scan_promises promises (suc n) i max_ballot pi =
    let p = promises i in
    let better =
      not (eqb_ℤ p.iid minus_one)
      && (not (eqb_ℤ p.value_ballot minus_one) && ltb_ℤ max_ballot p.value_ballot) in
    scan_promises promises n (suc i) (if better then p.value_ballot else max_ballot)
      (if better then some p else pi)

unfoldable pub phase2_value : ProposerRecord → Option PromiseInfo
unfolding scan_promises
phase2_value rec = scan_promises rec.promises n_of_acceptors 0 minus_one none

unfoldable pub send_accept : Leader → ProposerRecord → PromiseInfo → Leader
send_accept st rec pi = record st {
  sent =
      st.sent
      ++ (record {
        net = acceptors_net;
        msg = accept (record {
          iid = rec.iid;
          ballot = rec.ballot;
          value_size = pi.value_size;
          proposer_id = value_owner pi.value_ballot;
          value = take pi.value_size (bytes pi.value);
        });
        size = sizeof_paxos_msg + (sizeof_accept_msg + pi.value_size);
      }
          ∷ []);
}

abbrev pub offer_any : Leader → ProposerRecord → ℤ → Leader
offer_any st rec i =
    append_anymsg_to_buffer
      (record st {
        any_ballot = if ltb_ℤ st.any_ballot rec.ballot then rec.ballot else st.any_ballot;
      })
      i

abbrev pub finish : Leader → ℕ → Leader
finish st k = record st {
  proposer_array =
      update st.proposer_array k (record (st.proposer_array k) { status = p1_finished });
}

-- The body of the loop of `execute_phase2`. The record at the index of `i` may be of another
-- instance, which the source does not check.
unfoldable pub phase2_instance : Leader → ℤ → Leader
unfolding phase2_value
phase2_instance st i = if not (is_ready rec.status) then st else elim (phase2_value rec) [
  | none ↦ finish (offer_any st rec i) (get_pro_index i)
  | some pi ↦ finish (send_accept st rec pi) (get_pro_index i)
]
  where
    rec : ProposerRecord
    rec = st.proposer_array (get_pro_index i)

unfoldable pub phase2_instances : ℕ → ℤ → Leader → Leader
phase2_instances zero i st = st
phase2_instances (suc n) i st = phase2_instances n (i +ℤ pos 1) (phase2_instance st i)

abbrev pub flush_anymsg : Leader → Leader
flush_anymsg st = elim st.any_ids [
  | [] ↦ st
  | _ ∷ _ ↦ flush_send_buffer st (anyval st.any_ballot st.any_ids)
]

unfoldable pub execute_phase2 : Leader → ℤ → ℤ → Leader
execute_phase2 st first_iid last_iid =
    flush_anymsg (phase2_instances (rounds_between first_iid last_iid) first_iid (new_anymsg st))

-- The loop of `leader_handle_promise_msg`.
unfoldable pub handle_promises : Leader → ℤ → List PromiseMsg → Option Leader
handle_promises st acceptor_id [] = some st
handle_promises st acceptor_id (prom ∷ proms) =
    elim (handle_promise st prom acceptor_id (get_pro_index prom.iid)) [
      | none ↦ none
      | some (ret, st') ↦ handle_promises st' acceptor_id proms
    ]

abbrev pub first_of : List PromiseMsg → ℤ
first_of [] = minus_one
first_of (prom ∷ proms) = prom.iid

abbrev pub last_of : ℤ → List PromiseMsg → ℤ
last_of iid [] = iid
last_of iid (prom ∷ proms) = last_of prom.iid proms

unfoldable pub leader_handle_promise_msg : Leader → ℤ → List PromiseMsg → Option Leader
leader_handle_promise_msg st acceptor_id proms = elim (handle_promises st acceptor_id proms) [
  | none ↦ none
  | some st' ↦ some (execute_phase2 st' (first_of proms) (last_of minus_one proms))
]

-- The comparison is of unsigned numbers: the -1 of a failed `recvfrom` is not too small.
abbrev pub is_too_small : ℤ → Bool
is_too_small (pos n) = ltb n (sizeof_paxos_msg + sizeof_promise_batch_msg)
is_too_small (negsuc n) = false

-- `m` is what the receive buffer holds behind `recvfrom`, which returned `msg_size`.
unfoldable pub leader_handle_proposer_msg : Leader → ℤ → PaxosMsg → Option Leader
leader_handle_proposer_msg st msg_size (promise_batch acceptor_id proms) =
    if is_too_small msg_size then some st else leader_handle_promise_msg st acceptor_id proms
leader_handle_proposer_msg st msg_size (prepare_batch _) = some st
leader_handle_proposer_msg st msg_size (accept _) = some st
leader_handle_proposer_msg st msg_size (learner_sync _) = some st
leader_handle_proposer_msg st msg_size (learn _) = some st
leader_handle_proposer_msg st msg_size (anyval _ _) = some st
leader_handle_proposer_msg st msg_size (unknown_type _) = some st

-- The record of the current instance goes back to phase 1 with a higher ballot.
abbrev pub restarted : ProposerRecord → ProposerRecord
restarted rec = clear_promises (record rec {
  status = if is_finished rec.status then p1_pending else rec.status;
  ballot = ballot_next rec.ballot;
})

abbrev pub recount : Phase1Info → Bool → Phase1Info
recount p finished =
    if finished
    then record p { ready_count = p.ready_count -ℤ pos 1; pending_count = p.pending_count +ℤ pos 1 }
    else p

-- `set_phase2_check_timeout` notes the current instance.
unfoldable pub phase2_check_cb : Leader → Option Leader
phase2_check_cb st =
    if not (eqb_ℤ st.current_iid st.p2_current_iid)
    then some (record st { p2_current_iid = st.current_iid })
    else if not (eqb_ℤ rec.iid st.current_iid)
    then none
    else (let st' =
          add_prepare_to_buffer
            (record (new_batch st) {
              proposer_array = update st.proposer_array k (restarted rec);
              p1info = recount st.p1info (is_finished rec.status);
            })
            rec.iid (ballot_next rec.ballot) in
        some (record (flush_send_buffer st' (prepare_batch st'.batch)) {
          p2_current_iid = st.current_iid;
        }))
  where
    k : ℕ
    k = get_pro_index st.current_iid

    rec : ProposerRecord
    rec = st.proposer_array k
