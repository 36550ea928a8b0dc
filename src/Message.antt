-- ===== src/Message.antt =====
-- The messages of include/libpaxos_priv.h. A size or a count in a message is a number: a negative
-- one makes `malloc`, `memcpy` or a loop of the receiver undefined or empty. The trailing `value`
-- bytes are those of the buffer behind the header, of which a receiver reads `value_size`.
use libfastpaxos.Config.{max_udp_msg_size}
use libfastpaxos.Base.{◌≡◌, ◌≤◌, ℕ, ◌+◌, ◌*◌, List, [], ◌∷◌, length}
use libfastpaxos.Base.Int.{ℤ}

pub record PrepareMsg : Type 0 where
  pub iid : ℤ
  pub ballot : ℤ

pub record PromiseMsg : Type 0 where
  pub iid : ℤ
  pub ballot : ℤ
  pub value_ballot : ℤ
  pub value_size : ℕ
  pub value : List ℕ

pub record AcceptMsg : Type 0 where
  pub iid : ℤ
  pub ballot : ℤ
  pub value_size : ℕ
  pub proposer_id : ℤ
  pub value : List ℕ

pub record LearnMsg : Type 0 where
  pub acceptor_id : ℤ
  pub iid : ℤ
  pub ballot : ℤ
  pub proposer_id : ℤ
  pub value_size : ℕ
  pub value : List ℕ

-- A batch is the list of its entries; its `count` is their number.
pub data PaxosMsg : Type 0 where
  prepare_batch : List PrepareMsg → PaxosMsg
  accept : AcceptMsg → PaxosMsg
  learner_sync : List ℤ → PaxosMsg
  promise_batch : ℤ → List PromiseMsg → PaxosMsg
  learn : LearnMsg → PaxosMsg
  anyval : ℤ → List ℤ → PaxosMsg
  unknown_type : ℤ → PaxosMsg

-- `sizeof` of the message structs, with four bytes to an `int`.
abbrev pub sizeof_paxos_msg : ℕ
sizeof_paxos_msg = 8

abbrev pub sizeof_prepare_msg : ℕ
sizeof_prepare_msg = 8

abbrev pub sizeof_prepare_batch_msg : ℕ
sizeof_prepare_batch_msg = 4

abbrev pub sizeof_promise_msg : ℕ
sizeof_promise_msg = 16

abbrev pub sizeof_promise_batch_msg : ℕ
sizeof_promise_batch_msg = 8

abbrev pub sizeof_accept_msg : ℕ
sizeof_accept_msg = 16

abbrev pub sizeof_learn_msg : ℕ
sizeof_learn_msg = 20

abbrev pub sizeof_learner_sync_msg : ℕ
sizeof_learner_sync_msg = 4

abbrev pub sizeof_anyval_msg : ℕ
sizeof_anyval_msg = 8

abbrev pub sizeof_int : ℕ
sizeof_int = 4

-- The multicast groups of config.h.
pub data Net : Type 0 where
  learners_net acceptors_net proposers_net : Net

-- What `udp_send` is handed: the group, the message, and the number of bytes sent.
pub record Packet : Type 0 where
  pub net : Net
  pub msg : PaxosMsg
  pub size : ℕ

-- The bytes that `n` promises take behind the headers.
abbrev pub promises_size : List PromiseMsg → ℕ
promises_size [] = 0
promises_size (p ∷ ps) = sizeof_promise_msg + p.value_size + promises_size ps

-- The bytes of a whole packet, header included.
abbrev pub wire_size : PaxosMsg → ℕ
wire_size (prepare_batch ps) =
    sizeof_paxos_msg + sizeof_prepare_batch_msg + sizeof_prepare_msg * length ps
wire_size (accept m) = sizeof_paxos_msg + sizeof_accept_msg + m.value_size
wire_size (learner_sync ids) = sizeof_paxos_msg + sizeof_learner_sync_msg + sizeof_int * length ids
wire_size (promise_batch a ps) = sizeof_paxos_msg + sizeof_promise_batch_msg + promises_size ps
wire_size (learn m) = sizeof_paxos_msg + sizeof_learn_msg + m.value_size
wire_size (anyval b ids) = sizeof_paxos_msg + sizeof_anyval_msg + sizeof_int * length ids
wire_size (unknown_type t) = sizeof_paxos_msg

-- A packet of its message's length, within a UDP message.
abbrev pub Fits : Packet → Type 0
Fits p = (p.size ≡ wire_size p.msg) × (p.size ≤ max_udp_msg_size)
