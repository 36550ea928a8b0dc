-- ===== src/Proposer.antt =====
-- lib/proposer.c. The statics of the file are the record `Proposer`. Each function is one step:
-- `submit_value` runs up to its wait, and the wait ends when `client_waiting` is false. The code
-- lets go of `current_iid_lock` before it fills and sends the buffer, so that a client's thread and
-- the event loop can also interleave inside a step, which is not modelled. `timers` are the armed
-- libevent timeouts; `sent`, `client_log` and `leader_log` are the calls of `udp_send`, of the
-- client's callback and of `leader_deliver_value`, oldest first.
pub mod Retry
pub mod Ballots
pub mod Wake
pub mod Wait
use libfastpaxos.Base.{
  ℕ, ◌+◌, ◌%◌, Bool, true, false, not, ◌&&◌, List, [], ◌∷◌, ◌++◌, Option, none, some, ltb,
  if◌then◌else◌, take,
}
use libfastpaxos.Base.Int.{ℤ, pos, negsuc, minus_one, ◌+ℤ◌, ◌-ℤ◌, eqb_ℤ, ltb_ℤ}
use libfastpaxos.Config.{max_proposers, max_value_size}
use libfastpaxos.Message.{
  AcceptMsg, accept, Packet, acceptors_net, sizeof_paxos_msg, sizeof_accept_msg,
}
use libfastpaxos.Learner.{Delivery}

pub record TimeoutInfo : Type 0 where
  pub instance_id : ℤ
  pub hash : ℤ

pub record Proposer : Type 0 where
  pub fixed_ballot : ℤ
  pub proposer_id : ℤ
  pub client_waiting : Bool
  pub current_iid : ℤ
  pub value_delivered : ℤ
  pub last_accept_iid : ℤ
  pub last_accept_hash : ℤ
  pub amsg : AcceptMsg
  pub msg_size : ℕ
  pub leader : Bool
  pub has_client_func : Bool
  pub timers : List TimeoutInfo
  pub sent : List Packet
  pub client_log : List Delivery
  pub leader_log : List Delivery

-- Static storage is zeroed.
abbrev pub proposer_start : Proposer
proposer_start = record {
  fixed_ballot = pos 0;
  proposer_id = pos 0;
  client_waiting = false;
  current_iid = pos 0;
  value_delivered = pos 0;
  last_accept_iid = pos 0;
  last_accept_hash = pos 0;
  amsg = record { iid = pos 0; ballot = pos 0; value_size = 0; proposer_id = pos 0; value = [] };
  msg_size = 0;
  leader = false;
  has_client_func = false;
  timers = [];
  sent = [];
  client_log = [];
  leader_log = [];
}

-- `udp_send` of `proposer_send_buffer` to the acceptors.
abbrev pub accept_packet : Proposer → Packet
accept_packet p = record { net = acceptors_net; msg = accept p.amsg; size = p.msg_size }

abbrev pub send_accept_buffer : Proposer → Proposer
send_accept_buffer p = record p { sent = p.sent ++ (accept_packet p ∷ []) }

unfoldable pub set_proposer_check_timeout : Proposer → ℤ → ℤ → Proposer
set_proposer_check_timeout p instance_id hash = record p {
  timers = p.timers ++ (record { instance_id = instance_id; hash = hash } ∷ []);
}

-- Nothing new since the accept that the timeout guards.
abbrev pub is_current : Proposer → TimeoutInfo → Bool
is_current p ti =
    p.client_waiting && (eqb_ℤ ti.instance_id p.last_accept_iid && eqb_ℤ ti.hash p.last_accept_hash)

-- A timeout that fired is no longer armed: `ti` is not among `timers`, unless it is added again.
unfoldable pub proposer_check_timeout : Proposer → TimeoutInfo → Proposer
proposer_check_timeout p ti =
    if is_current p ti
    then record p {
      last_accept_hash = p.last_accept_hash +ℤ pos 1;
      sent = p.sent ++ (accept_packet p ∷ []);
      timers =
          p.timers
          ++ (record { instance_id = ti.instance_id; hash = p.last_accept_hash +ℤ pos 1 } ∷ []);
    }
    else p

-- Someone else's value: the accept goes out again, for the next instance.
unfoldable pub try_next_instance : Proposer → ℤ → Proposer
unfolding set_proposer_check_timeout
try_next_instance p just_accepted =
    let p' = send_accept_buffer (record p {
      amsg = record p.amsg { iid = p.current_iid };
      last_accept_iid = just_accepted;
      last_accept_hash = p.last_accept_hash +ℤ pos 1;
    }) in
    set_proposer_check_timeout p' p'.amsg.iid p'.last_accept_hash

abbrev pub call_client : Proposer → Delivery → Proposer
call_client p d =
    if p.has_client_func then record p { client_log = p.client_log ++ (d ∷ []) } else p

abbrev pub call_leader : Proposer → Delivery → Proposer
call_leader p d = if p.leader then record p { leader_log = p.leader_log ++ (d ∷ []) } else p

-- `none` is the failed assertion that the instance is the current one.
unfoldable pub proposer_deliver_callback : Proposer → Delivery → Option Proposer
proposer_deliver_callback p d =
    if not (eqb_ℤ p.current_iid d.iid)
    then none
    else if not p.client_waiting
    then some p₁
    else if eqb_ℤ p.proposer_id d.proposer_id
    then some (record p₂ { client_waiting = false })
    else some (try_next_instance p₂ p.current_iid)
  where
    p₁ : Proposer
    p₁ = record (call_leader p d) { current_iid = p.current_iid +ℤ pos 1 }

    p₂ : Proposer
    p₂ = call_client p₁ d

-- What the calls of the libraries return: a lock, a socket, a leader.
pub record InitCalls : Type 0 where
  pub mutex_ok : Bool
  pub socket_ok : Bool
  pub leader_ok : Bool

-- The result of `learner_init_threaded` is not read.
unfoldable pub proposer_init : Proposer → InitCalls → ℤ → Bool → ℤ × Proposer
proposer_init p calls prop_id is_leader =
    if not calls.mutex_ok
    then (minus_one, p₁)
    else if not calls.socket_ok
    then (minus_one, p₁)
    else if is_leader && not calls.leader_ok
    then (minus_one, p₂)
    else (pos 0, p₂)
  where
    p₁ : Proposer
    p₁ = record p {
      leader = if is_leader then true else p.leader;
      proposer_id = prop_id;
      current_iid = pos 0;
    }

    p₂ : Proposer
    p₂ = record p₁ { fixed_ballot = pos max_proposers +ℤ prop_id }

unfoldable pub proposer_init_and_deliver : Proposer → InitCalls → ℤ → Bool → ℤ × Proposer
unfolding proposer_init
proposer_init_and_deliver p calls prop_id is_leader =
    let (ret, p') = proposer_init p calls p.proposer_id is_leader in
    if eqb_ℤ ret (pos 0) then (pos 0, record p' { has_client_func = true }) else (minus_one, p')

-- `proposer_submit_value` up to the loop that waits for the delivery. A value that is too big is
-- refused with a message only.
unfoldable pub proposer_submit_value : Proposer → List ℕ → ℕ → Proposer
unfolding set_proposer_check_timeout
proposer_submit_value p value val_size =
    if ltb max_value_size val_size
    then p
    else (let p' = send_accept_buffer (record p {
      last_accept_iid = p.current_iid;
      last_accept_hash = pos 1;
      value_delivered = pos 0;
      client_waiting = true;
      amsg = record {
        iid = p.current_iid;
        ballot = p.fixed_ballot;
        value_size = val_size;
        proposer_id = p.proposer_id;
        value = take val_size value;
      };
      msg_size = sizeof_accept_msg + val_size + sizeof_paxos_msg;
    }) in
        set_proposer_check_timeout p' p'.amsg.iid (pos 1))

-- The loop at the end of `proposer_submit_value`, while the values of `ds` are delivered: what is
-- delivered after the wait is not looked at.
unfoldable pub wait_delivered : Proposer → List Delivery → Option Proposer
wait_delivered p [] = some p
wait_delivered p (d ∷ ds) = elim p.client_waiting [
  | false ↦ some p
  | true ↦ elim (proposer_deliver_callback p d) [ none ↦ none | some p' ↦ wait_delivered p' ds ]
]

-- `VALUE_OWNER` of lib/leader.c, with the sign of C's remainder.
abbrev pub value_owner : ℤ → ℤ
value_owner (pos n) = pos (n % max_proposers)
value_owner (negsuc n) = pos 0 -ℤ pos ((n + 1) % max_proposers)
