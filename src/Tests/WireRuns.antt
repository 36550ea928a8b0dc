-- ===== src/Tests/WireRuns.antt =====
-- A batch of promises, with values of different lengths, as bytes.
use libfastpaxos.Base.{ℕ, ◌-◌, ◌≡◌, refl, List, [], ◌∷◌, ◌++◌, none, some, arith, length}
use libfastpaxos.Base.Int.{pos, minus_one}
use libfastpaxos.Message.{
  PromiseMsg, PaxosMsg, promise_batch, wire_size, Packet, proposers_net, sizeof_paxos_msg,
}
use libfastpaxos.Acceptor.Anyval.{handle_message}
use libfastpaxos.Learner.{init, handle_learn_msg, handle_learner_msg}
use libfastpaxos.Leader.Phase1.{leader_start}
use libfastpaxos.Wire.Write.{put_data, buffer, encode}
use libfastpaxos.Wire.Ints.{put_int, read_int, read_size, read_bytes}
use libfastpaxos.Wire.Read.{decode, read_promise, read_all, read_batch, read_data}
use libfastpaxos.Wire.Writable.{IsWritable, IsPromise}
use libfastpaxos.Wire.RoundTrip.{decode-encode}
use libfastpaxos.Wire.Receive.{
  acceptor_reads, learner_reads, leader_reads, leader_handles, sent_is_handled,
}
use libfastpaxos.Wire.Senders.{
  request_of, learn_of, submitted_is_read, learn_is_read, promises_are_read,
}
use libfastpaxos.Proposer.{proposer_start, proposer_submit_value}
use libfastpaxos.Disk.{AcceptorRecord}
use libfastpaxos.Acceptor.State.{Acceptor, start_record, flush_promises, send_learn_message}
use libfastpaxos.Acceptor.Accept.{handle_accept}
use libfastpaxos.Leader.Phase2.{leader_handle_promise_msg}
use libfastpaxos.Tests.AcceptorRuns.{memory_db, fresh, uninit}

abbrev unset : PromiseMsg
unset = record {
  iid = pos 4;
  ballot = pos 23;
  value_ballot = minus_one;
  value_size = 0;
  value = [];
}

abbrev reported : PromiseMsg
reported = record {
  iid = pos 5;
  ballot = pos 23;
  value_ballot = pos 11;
  value_size = 3;
  value = 7 ∷ 200 ∷ 255 ∷ [];
}

abbrev replies : PaxosMsg
replies = promise_batch (pos 2) (unset ∷ reported ∷ unset ∷ [])

replies-IsWritable : IsWritable replies
replies-IsWritable =
    let a : IsPromise unset = (omega arith, omega arith, omega arith, (refl, omega arith)) in
    let b : IsPromise reported = (omega arith, omega arith, omega arith, (refl, omega arith)) in
    (omega arith, (a, (b, (a, tt))), omega arith)

-- The bytes of -1.
minus_one_bytes : put_int minus_one [] ≡ 255 ∷ 255 ∷ 255 ∷ 255 ∷ []
unfolding put_int
minus_one_bytes = refl

-- The packet of these promises.
abbrev batch : Packet
batch = record { net = proposers_net; msg = replies; size = wire_size replies }

decode-encode_example : decode (encode batch) ≡ some (pos (batch.size - sizeof_paxos_msg), replies)
decode-encode_example = decode-encode batch replies-IsWritable refl (omega arith)

sent_is_handled_example :
    (acceptor_reads fresh (λ _. uninit) (encode batch) ≡ handle_message fresh (λ _. uninit) replies)
    × (learner_reads init (encode batch) ≡ handle_learner_msg init replies)
    × (leader_reads (leader_start (pos 3)) (encode batch)
        ≡ leader_handles (leader_start (pos 3)) replies)
sent_is_handled_example =
    sent_is_handled batch replies-IsWritable (refl, omega arith) fresh (λ _. uninit) init
      (leader_start (pos 3))

-- A header that states a size of 5, and one byte: the packet is dropped before its data are read.
short_is_dropped :
    acceptor_reads fresh (λ _. uninit) (put_int (pos 5) (put_int (pos 2) (7 ∷ []))) ≡ some fresh
unfolding acceptor_reads put_int read_int libfastpaxos.Base.Int.◌-ℤ◌
short_is_dropped = refl

-- A sender that counts three bytes too few: a receiver of promises reads behind the end.
undercounted : decode (encode (record batch { size = 61 })) ≡ none
unfolding encode buffer put_data put_int decode read_int read_size read_bytes read_data read_batch
    read_all read_promise
undercounted = refl

-- A learner does not read the data of promises.
promises_ignored : learner_reads init (encode (record batch { size = 61 })) ≡ some init
unfolding learner_reads encode buffer put_data put_int read_int
    libfastpaxos.Wire.Receive.read_wanted handle_learner_msg
promises_ignored = refl

abbrev seven : List ℕ
seven = 7 ∷ 200 ∷ 255 ∷ []

submitted_is_read_example :
    (x : Packet) × ((proposer_submit_value proposer_start seven 3).sent
      ≡ proposer_start.sent ++ (x ∷ []))
    × (length (encode x) ≡ x.size)
    × (acceptor_reads fresh (λ _. uninit) (encode x)
        ≡ some (handle_accept fresh uninit (request_of proposer_start seven 3)))
submitted_is_read_example =
    submitted_is_read proposer_start seven 3 (omega arith) (omega arith) (omega arith) (omega arith)
      (omega arith) fresh (λ _. uninit)

-- A record with these bytes.
abbrev held : AcceptorRecord
held = record start_record { ballot = pos 23; value_size = 3; value = some seven }

learn_is_read_example :
    (x : Packet) × ((send_learn_message fresh held).sent ≡ fresh.sent ++ (x ∷ []))
    × (length (encode x) ≡ x.size)
    × (learner_reads init (encode x) ≡ handle_learn_msg init (learn_of fresh held))
learn_is_read_example =
    learn_is_read fresh held (omega arith) (omega arith) (omega arith) (omega arith) (omega arith)
      (omega arith) init

-- An acceptor with one promise in its buffer.
abbrev filled : Acceptor memory_db
filled = record fresh { send_buffer = reported ∷ []; send_buffer_size = 35 }

promises_are_read_example :
    (x : Packet) × ((flush_promises filled).sent ≡ filled.sent ++ (x ∷ []))
    × (length (encode x) ≡ x.size)
    × (leader_reads (leader_start (pos 3)) (encode x)
        ≡ leader_handle_promise_msg (leader_start (pos 3)) filled.acceptor_id filled.send_buffer)
promises_are_read_example =
    promises_are_read filled (omega arith) (omega arith)
      (omega arith, ((omega arith, omega arith, omega arith, (refl, omega arith)), tt), omega arith)
      (leader_start (pos 3))
