-- ===== src/Wire/Write.antt =====
-- What the senders of lib/acceptor.c, lib/learner.c, lib/proposer.c and lib/leader.c write into their
-- buffers.
use libfastpaxos.Base.{ℕ, ◌-◌, List, [], ◌∷◌, ◌++◌, length, take}
use libfastpaxos.Base.Int.{ℤ, pos}
use libfastpaxos.Message.{
  PrepareMsg, PromiseMsg, AcceptMsg, LearnMsg, PaxosMsg, prepare_batch, accept, learner_sync,
  promise_batch, learn, anyval, unknown_type, Packet, sizeof_paxos_msg,
}
use libfastpaxos.Wire.Ints.{put_int}

abbrev pub put_prepare : PrepareMsg → List ℕ → List ℕ
put_prepare m rest = put_int m.iid (put_int m.ballot rest)

abbrev pub put_promise : PromiseMsg → List ℕ → List ℕ
put_promise m rest =
    put_int m.iid
      (put_int m.ballot (put_int m.value_ballot (put_int (pos m.value_size) (m.value ++ rest))))

abbrev pub put_accept : AcceptMsg → List ℕ → List ℕ
put_accept m rest =
    put_int m.iid
      (put_int m.ballot (put_int (pos m.value_size) (put_int m.proposer_id (m.value ++ rest))))

abbrev pub put_learn : LearnMsg → List ℕ → List ℕ
put_learn m rest = put_int m.acceptor_id (
    put_int m.iid
      (put_int m.ballot (put_int m.proposer_id (put_int (pos m.value_size) (m.value ++ rest)))))

-- The entries of a batch, one behind the other.
abbrev pub put_all {ℓ} : {A : Type ℓ} → (A → List ℕ → List ℕ) → List A → List ℕ → List ℕ
put_all put [] rest = rest
put_all put (x ∷ xs) rest = put x (put_all put xs rest)

abbrev pub type_of : PaxosMsg → ℤ
type_of (prepare_batch ms) = pos 1
type_of (accept m) = pos 2
type_of (learner_sync ids) = pos 3
type_of (promise_batch id ms) = pos 4
type_of (learn m) = pos 5
type_of (anyval ballot ids) = pos 6
type_of (unknown_type t) = t

-- `data` of the `paxos_msg`.
unfoldable pub put_data : PaxosMsg → List ℕ → List ℕ
put_data (prepare_batch ms) rest = put_int (pos (length ms)) (put_all put_prepare ms rest)
put_data (accept m) rest = put_accept m rest
put_data (learner_sync ids) rest = put_int (pos (length ids)) (put_all put_int ids rest)
put_data (promise_batch id ms) rest =
    put_int id (put_int (pos (length ms)) (put_all put_promise ms rest))
put_data (learn m) rest = put_learn m rest
put_data (anyval ballot ids) rest =
    put_int ballot (put_int (pos (length ids)) (put_all put_int ids rest))
put_data (unknown_type t) rest = rest

-- What a sender has in its buffer when it calls `udp_send`: the header, with the size of the data
-- that the sender has counted, and the data.
unfoldable pub buffer : Packet → List ℕ
unfolding put_data
buffer p = put_int (pos (p.size - sizeof_paxos_msg)) (put_int (type_of p.msg) (put_data p.msg []))

-- The bytes that `udp_send` is told to send: as many as the sender has counted.
unfoldable pub encode : Packet → List ℕ
encode p = take p.size (buffer p)
