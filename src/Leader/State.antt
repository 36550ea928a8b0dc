-- ===== src/Leader/State.antt =====
-- The state of lib/leader.c, and the functions that fill and send its buffer.
use libfastpaxos.Base.{
  ℕ, ◌+◌, Bool, true, false, List, [], ◌∷◌, ◌++◌, Option, none, ltb, if◌then◌else◌,
}
use libfastpaxos.Base.Int.{ℤ, pos, negsuc, minus_one, ◌+ℤ◌, ◌-ℤ◌}
use libfastpaxos.Config.{max_udp_msg_size}
use libfastpaxos.Message.{
  PrepareMsg, PaxosMsg, prepare_batch, anyval, Packet, acceptors_net, sizeof_paxos_msg,
  sizeof_prepare_msg, sizeof_prepare_batch_msg, sizeof_anyval_msg, sizeof_int,
}

pub data StatusFlag : Type 0 where
  p1_new p1_pending p1_ready p1_finished : StatusFlag

abbrev pub is_new : StatusFlag → Bool
is_new p1_new = true
is_new _ = false

abbrev pub is_pending : StatusFlag → Bool
is_pending p1_pending = true
is_pending _ = false

abbrev pub is_ready : StatusFlag → Bool
is_ready p1_ready = true
is_ready _ = false

abbrev pub is_finished : StatusFlag → Bool
is_finished p1_finished = true
is_finished _ = false

pub record PromiseInfo : Type 0 where
  pub iid : ℤ
  pub value_ballot : ℤ
  pub value_size : ℕ
  pub value : Option (List ℕ)

-- `promises` is read below `n_of_acceptors` only.
pub record ProposerRecord : Type 0 where
  pub iid : ℤ
  pub ballot : ℤ
  pub status : StatusFlag
  pub promise_count : ℕ
  pub promises : ℕ → PromiseInfo

pub record Phase1Info : Type 0 where
  pub pending_count : ℤ
  pub ready_count : ℤ
  pub highest_ready : ℤ
  pub first_to_check : ℤ
  pub last_to_check : ℤ

-- The send buffer is one array that a handler fills as a prepare batch or as an any message, and
-- sets up before it does: `batch`, or `any_ballot` and `any_ids`, is what it holds then, and
-- `msg_size` the size in its header. `p2_current_iid` is the field of `p2info`.
pub record Leader : Type 0 where
  pub proposer_id : ℤ
  pub current_iid : ℤ
  pub p1info : Phase1Info
  pub p2_current_iid : ℤ
  pub proposer_array : ℕ → ProposerRecord
  pub batch : List PrepareMsg
  pub any_ballot : ℤ
  pub any_ids : List ℤ
  pub msg_size : ℕ
  pub sent : List Packet

abbrev pub leader_deliver_value : Leader → ℤ → Leader
leader_deliver_value st iid = record st {
  current_iid = iid +ℤ pos 1;
  p1info = record st.p1info { ready_count = st.p1info.ready_count -ℤ pos 1 };
}

-- The buffer's bytes are those of `m`.
abbrev pub flush_send_buffer : Leader → PaxosMsg → Leader
flush_send_buffer st m = record st {
  sent =
      st.sent
      ++ (record { net = acceptors_net; msg = m; size = sizeof_paxos_msg + st.msg_size } ∷ []);
}

-- The buffer as an empty prepare batch.
abbrev pub new_batch : Leader → Leader
new_batch st = record st { batch = []; msg_size = sizeof_prepare_batch_msg }

abbrev pub append_prepare : Leader → ℤ → ℤ → Leader
append_prepare st iid ballot = record st {
  batch = st.batch ++ (record { iid = iid; ballot = ballot } ∷ []);
  msg_size = st.msg_size + sizeof_prepare_msg;
}

unfoldable pub add_prepare_to_buffer : Leader → ℤ → ℤ → Leader
add_prepare_to_buffer st iid ballot =
    let st' = append_prepare st iid ballot in
    if ltb max_udp_msg_size (st'.msg_size + sizeof_paxos_msg + sizeof_prepare_msg)
    then new_batch (flush_send_buffer st' (prepare_batch st'.batch))
    else st'

-- The buffer as an empty any message.
abbrev pub new_anymsg : Leader → Leader
new_anymsg st = record st { any_ids = []; any_ballot = minus_one; msg_size = sizeof_anyval_msg }

abbrev pub append_id : Leader → ℤ → Leader
append_id st iid = record st {
  any_ids = st.any_ids ++ (iid ∷ []);
  msg_size = st.msg_size + sizeof_int;
}

unfoldable pub append_anymsg_to_buffer : Leader → ℤ → Leader
append_anymsg_to_buffer st iid =
    let st' = append_id st iid in
    if ltb max_udp_msg_size (st'.msg_size + sizeof_paxos_msg + sizeof_int)
    then new_anymsg (flush_send_buffer st' (anyval st'.any_ballot st'.any_ids))
    else st'

-- What the loops over the promises of a record write into each.
abbrev pub no_promise : PromiseInfo
no_promise = record { iid = minus_one; value_ballot = minus_one; value_size = 0; value = none }

abbrev pub clear_promises : ProposerRecord → ProposerRecord
clear_promises rec = record rec { promise_count = 0; promises = λ j. no_promise }

-- Static storage is zeroed.
abbrev pub zero_promise : PromiseInfo
zero_promise = record { iid = pos 0; value_ballot = pos 0; value_size = 0; value = none }

abbrev pub zero_proposer_record : ProposerRecord
zero_proposer_record = record {
  iid = pos 0;
  ballot = pos 0;
  status = p1_new;
  promise_count = 0;
  promises = λ j. zero_promise;
}

-- The number of rounds of `for (i = from; i <= to; i++)`.
abbrev pub rounds : ℤ → ℕ
rounds (pos n) = n
rounds (negsuc n) = 0

abbrev pub rounds_between : ℤ → ℤ → ℕ
rounds_between from to = rounds (to -ℤ from +ℤ pos 1)
