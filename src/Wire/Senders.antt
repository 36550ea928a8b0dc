-- ===== src/Wire/Senders.antt =====
-- From a sender's function to the handler of its receiver, through the bytes: `proposer_submit_value`
-- of lib/proposer.c, and `send_learn_message` and `flush_send_buffer` of lib/acceptor.c.
use libfastpaxos.Base.{
  ℕ, ◌+◌, ◌≤◌, ◌≡◌, refl, ◌∙◌, arith, false, List, [], ◌∷◌, ◌++◌, some, length, length-take, take,
  ltb,
}
use libfastpaxos.Config.{max_udp_msg_size, max_value_size}
use libfastpaxos.Message.{
  AcceptMsg, LearnMsg, accept, learn, promise_batch, Packet, Fits, acceptors_net, learners_net,
  proposers_net, sizeof_accept_msg, sizeof_learn_msg, sizeof_paxos_msg,
}
use libfastpaxos.Disk.{Database, AcceptorRecord, Uninit, bytes}
use libfastpaxos.Acceptor.State.{Acceptor, flush_promises, send_learn_message}
use libfastpaxos.Acceptor.Accept.{handle_accept}
use libfastpaxos.Acceptor.Anyval.{handle_message}
use libfastpaxos.Acceptor.Buffer.{IsOpen}
use libfastpaxos.Learner.{Learner, handle_learn_msg, handle_learner_msg}
use libfastpaxos.Leader.State.{Leader}
use libfastpaxos.Leader.Phase2.{leader_handle_promise_msg}
use libfastpaxos.Proposer.{Proposer, proposer_submit_value}
use libfastpaxos.Wire.Ints.{IsInt}
use libfastpaxos.Wire.Write.{encode}
use libfastpaxos.Wire.Writable.{IsWritable, IsAccept, IsLearn}
use libfastpaxos.Wire.Sizes.{length-encode}
use libfastpaxos.Wire.Receive.{
  acceptor_reads, learner_reads, leader_reads, acceptor_hears, learner_hears, leader_hears,
}
use libfastpaxos.Base.Int.{ℤ}

-- The accept request of a client's value.
abbrev pub request_of : Proposer → List ℕ → ℕ → AcceptMsg
request_of p value size = record {
  iid = p.current_iid;
  ballot = p.fixed_ballot;
  value_size = size;
  proposer_id = p.proposer_id;
  value = take size value;
}

-- The vote that a record stands for.
abbrev pub learn_of : {db : Database} → Acceptor db → AcceptorRecord → LearnMsg
learn_of st rec = record {
  acceptor_id = st.acceptor_id;
  iid = rec.iid;
  ballot = rec.ballot;
  proposer_id = rec.proposer_id;
  value_size = rec.value_size;
  value = take rec.value_size (bytes rec.value);
}

taken_whole : (n : ℕ) (value : List ℕ) → n ≤ length value → length (take n value) ≡ n
taken_whole n value h = length-take n value ∙ ground arith

-- A client's value that is not above PAXOS_MAX_VALUE_SIZE and has the size that the client states
-- leaves a proposer whose numbers are values of an `int` as one packet, and the bytes of the packet
-- make an acceptor handle the accept request for this value, with the proposer's instance and ballot.
pub submitted_is_read :
    (p : Proposer) (value : List ℕ) (size : ℕ)
    → size ≤ max_value_size
    → size ≤ length value
    → IsInt p.current_iid
    → IsInt p.fixed_ballot
    → IsInt p.proposer_id
    → {db : Database} (st : Acceptor db) (u : ℤ → Uninit)
    → (x : Packet) × ((proposer_submit_value p value size).sent ≡ p.sent ++ (x ∷ []))
      × (length (encode x) ≡ x.size)
      × (acceptor_reads st u (encode x)
          ≡ some (handle_accept st (u p.current_iid) (request_of p value size)))
unfolding proposer_submit_value handle_message
submitted_is_read p value size h there iid ballot owner st u =
    let small : ltb max_value_size size ≡ false = ground arith in
    let a : IsAccept (request_of p value size) =
      (iid, ballot, owner, (taken_whole size value there, omega arith)) in
    let x : Packet = record {
      net = acceptors_net;
      msg = accept (request_of p value size);
      size = sizeof_accept_msg + size + sizeof_paxos_msg;
    } in
    let fits : Fits x = (omega arith, omega arith) in
    rw small (x, refl, length-encode x a fits.0, acceptor_hears x a fits st u)

-- The bytes of a vote that an acceptor sends make a learner handle the vote for the record's instance,
-- ballot and value, if the numbers are values of an `int` and the record holds a value of its size, not
-- above PAXOS_MAX_VALUE_SIZE.
pub learn_is_read :
    {db : Database} (st : Acceptor db) (rec : AcceptorRecord)
    → rec.value_size ≤ max_value_size
    → rec.value_size ≤ length (bytes rec.value)
    → IsInt st.acceptor_id
    → IsInt rec.iid
    → IsInt rec.ballot
    → IsInt rec.proposer_id
    → (l : Learner)
    → (x : Packet) × ((send_learn_message st rec).sent ≡ st.sent ++ (x ∷ []))
      × (length (encode x) ≡ x.size)
      × (learner_reads l (encode x) ≡ handle_learn_msg l (learn_of st rec))
unfolding send_learn_message handle_learner_msg
learn_is_read st rec h there id iid ballot owner l =
    let w : IsLearn (learn_of st rec) =
      (id, iid, ballot, owner, (taken_whole rec.value_size (bytes rec.value) there, omega arith)) in
    let x : Packet = record {
      net = learners_net;
      msg = learn (learn_of st rec);
      size = sizeof_learn_msg + sizeof_paxos_msg + rec.value_size;
    } in
    let fits : Fits x = (omega arith, omega arith) in
    (x, refl, length-encode x w fits.0, learner_hears x w fits l)

-- The promises in an acceptor's buffer, when they are flushed, make a leader handle these promises, if
-- the size that the acceptor has counted is that of the headers and the promises and fits in a UDP
-- message, and the promises have a form in bytes.
pub promises_are_read :
    {db : Database} (st : Acceptor db)
    → IsOpen st
    → st.send_buffer_size ≤ max_udp_msg_size
    → IsWritable (promise_batch st.acceptor_id st.send_buffer)
    → (leader : Leader)
    → (x : Packet) × ((flush_promises st).sent ≡ st.sent ++ (x ∷ []))
      × (length (encode x) ≡ x.size)
      × (leader_reads leader (encode x)
          ≡ leader_handle_promise_msg leader st.acceptor_id st.send_buffer)
unfolding flush_promises
promises_are_read st counted small w leader =
    let x : Packet = record {
      net = proposers_net;
      msg = promise_batch st.acceptor_id st.send_buffer;
      size = st.send_buffer_size;
    } in
    let fits : Fits x = (omega (arith, counted), small) in
    (x, refl, length-encode x w fits.0, leader_hears x w fits leader)
