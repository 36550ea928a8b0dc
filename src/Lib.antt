-- ===== src/Lib.antt =====
-- libfastpaxos, an implementation of Paxos with fast rounds in C: proposers, acceptors and
-- learners exchange UDP multicast messages, and one proposer is also the leader. This library
-- models the four roles and the acceptor's storage, and proves what each owes the others.
--
-- The parts and how they work together. A client hands a value to its proposer (lib/proposer.c),
-- which sends an accept request for the current instance to the acceptors. The leader
-- (lib/leader.c) runs phase 1 ahead of the instances: it sends prepare requests, collects
-- promises, and for an instance that a quorum has promised sends either the value of the highest
-- ballot that was reported, or an any message by which the acceptors take the request of any
-- proposer. An acceptor (lib/acceptor.c) keeps a record for each instance in a ring array, and on
-- disk (lib/acceptor_disk_helpers.c), and tells the learners of each vote. A learner
-- (lib/learner.c) counts the votes, and delivers the values in the order of the instances; every
-- proposer has one inside, which wakes the client.
--
-- The files. Base has the shared types: Base/Int the C type int, Base/Bits masks as remainders.
-- Config is config.h, libpaxos.h and the macros of the headers: get_lea_index is GET_LEA_INDEX,
-- Config/Index shows that the masks are remainders, Config/Quorum that quorums meet, and
-- Config/Profiles has config.h, config_highspeed.h and config_slow_debug.h side by side. Udp is
-- common/paxos_udp.c over the record Sockets; Udp/Posix states what the calls of the system do,
-- and Udp/Open what the functions leave behind. Startup has learner_init, learner_init_threaded,
-- acceptor_start and register_leader_sock, and Startup/Ready what the programs find in their
-- loops. Message is include/libpaxos_priv.h, a packet is a call of udp_send. Wire has the bytes of
-- the messages: Wire/Write and Wire/Read what the senders write through the structs and what the
-- receivers read, Wire/Writable which messages have a form in bytes, Wire/RoundTrip and Wire/Sizes
-- that writing and reading agree, Wire/Receive the packets on their way into the handlers, and
-- Wire/Senders the way from a sender's function to a handler. Learner has update_record,
-- check_quorum, deliver_values and learner_handle_learn_msg, as handle_learn_msg; Learner/Window,
-- Learner/Update and Learner/Handle are about the order of deliveries, Learner/Evidence and
-- Learner/Votes about the votes behind them; Learner/Sync has ask_retransmission and lsync_check,
-- and Learner/Retransmit what they ask for. Disk has disk_update_record and disk_lookup_record
-- over the record Database; Disk/Entries sees it as a map. Acceptor/State, Acceptor/Prepare,
-- Acceptor/Accept and Acceptor/Anyval have the handlers of lib/acceptor.c; Acceptor/Spec is the
-- rule of Paxos on a map from instances to what is remembered, Acceptor/Cache shows that the array
-- is a write-through cache of the disk, Acceptor/Buffer is about the batch of promises,
-- Acceptor/Promise, Acceptor/Vote and Acceptor/Enable compare the handlers with the rule,
-- Acceptor/Safety draws the consequence, and Acceptor/Anomalies shows where the code leaves the
-- rule; Acceptor/Replies, Acceptor/Source and Acceptor/Runs follow where its values come from over
-- any messages; Acceptor/Clear, Acceptor/Firm and Acceptor/Kept show that a promise is kept over
-- runs without any messages. Proposer has lib/proposer.c; Proposer/Retry, Proposer/Wake,
-- Proposer/Wait and Proposer/Ballots are about its timeouts, its client, its wait and its ballots.
-- Leader/State, Leader/Phase1 and Leader/Phase2 have lib/leader.c; Leader/Choice is about the
-- value of phase 2, Leader/Bounds and Leader/AnyBounds about the size of what the leader sends,
-- Leader/Counts, Leader/Quorate, Leader/Promised and Leader/Reached about the promises behind a
-- ready record, and Leader/Restart where they are lost; Leader/Ledger keeps the accept requests
-- beside the records that they came from, Leader/LedgerMoves, Leader/LedgerPhase1 and
-- Leader/LedgerPhase2 show that the handlers keep them in order, and Leader/OneValue that no
-- ballot is used twice. System has the acceptors and a learner together, with a network between
-- them in System/Network, and System/Validity about what the learner delivers. Tests has concrete
-- runs.
--
-- How the state corresponds. The static variables of a file are one record, an array is a function
-- from indices, and a NULL value is none. A handler is a function from the state to the state,
-- with one more result where the C function has one; calls of udp_send and of callbacks are
-- appended to a log in the state. Where C has a failed assertion, a write through NULL, an index
-- out of range of an array of records, or a read behind the end of a packet, the handler yields
-- none. The bytes of the fixed buffers (send_buffer of an acceptor, deliver_buffer of a learner)
-- are not bounded in the model: where a value is larger than PAXOS_MAX_VALUE_SIZE, C can write
-- past their end, and the model goes on; proposer_submit_value refuses such values, but no
-- receiver tests for them. The theorems about sizes state what they need of the values. The
-- integers are not bounded: signed overflow is undefined in C, and the statements are about runs
-- without it. A macro that masks an index acts on the 32 bits of the int, and the key of the
-- database is unsigned with 32 bits. Memory that malloc returns without setting it is an argument
-- of the handlers, and the statements are about every value of it.
--
-- Parameters. The calls of Berkeley DB are the record Database; IsReliable states that a new
-- database is empty, and that a write succeeds and is read back under its key. An I/O error is
-- outside of what is stated, since the program only prints it. The calls of the socket interface
-- are the record Sockets; IsPosix states that a new descriptor was not open before, and that a
-- call on a descriptor changes that one alone. The results of event_init, of pthread_create and of
-- the calls that open the database are arguments. Fuel: deliver_values loops until it meets a
-- record that is not closed; its fuel is the size of the array, and handle_all_in_order shows that
-- it is enough. The wait for learner_ready has a number of looks at the flag, and the statement
-- about it holds for every number above the delay of the thread. The other loops are counted, and
-- are recursion on a list or on the number of rounds.
--
-- Not modelled: threads and the event loop, which are calls of the system and of libevent (each
-- handler is one step, which is how the loop runs them; that a client's thread runs beside the
-- loop, and fills the buffer of its proposer without the lock, is not modelled); the arming of
-- timers with their intervals; disk_cleanup_permastorage, which closes the database and which the
-- library does not call; logging; the test programs and scripts.
pub mod Base
pub mod Config
pub mod Message
pub mod Learner
pub mod Disk
pub mod Acceptor
pub mod Proposer
pub mod Leader
pub mod Udp
pub mod Startup
pub mod Wire
pub mod System
pub mod Tests
