-- ===== src/Startup.antt =====
-- How the programs start: `learner_init` and `learner_init_threaded` of lib/learner.c,
-- `acceptor_start` of lib/acceptor.c with `disk_init_permastorage` of lib/acceptor_disk_helpers.c, and
-- `register_leader_sock` of lib/leader.c. A function that enters the event loop does not return from
-- it, and is `some` of what it has set up; the results of the calls of libraries are arguments.
pub mod Ready
use libfastpaxos.Base.{
  ℕ, zero, suc, leb, Bool, true, false, not, ◌||◌, ◌&&◌, Option, none, some, if◌then◌else◌,
}
use libfastpaxos.Base.Int.{ℤ, pos, minus_one, eqb_ℤ}
use libfastpaxos.Message.{Net, learners_net, acceptors_net, proposers_net}
use libfastpaxos.Disk.{Database}
use libfastpaxos.Acceptor.State.{Acceptor, acceptor_init}
use libfastpaxos.Udp.{Sockets, is_negative, is_error, create_udp_socket, create_udp_sender}

-- The codes that Berkeley DB returns.
pub record OpenCalls : Type 0 where
  pub db_create : ℤ
  pub db_open : ℤ

abbrev pub disk_init_permastorage : OpenCalls → ℤ
disk_init_permastorage calls =
    if is_error calls.db_create
    then calls.db_create
    else if is_error calls.db_open
    then calls.db_open
    else pos 0

-- The sockets of a learner in its loop.
pub record LearnerSockets : Type 0 where
  pub send_socket : ℤ
  pub msg_socket : ℤ

pub record AcceptorSockets : Type 0 where
  pub learner_socket : ℤ
  pub proposer_socket : ℤ
  pub acceptor_socket : ℤ

-- The flag as the thread leaves it at a time: `learner_init` sets it before it enters its loop, and
-- nothing else does.
abbrev pub learner_ready : Option LearnerSockets → ℕ → ℕ → Bool
learner_ready none delay time = false
learner_ready (some sockets) delay time = leb delay time

-- `while(!learner_ready)`, with the number of looks at the flag from `time` on: whether it ends.
unfoldable pub learner_wait_ready : (ℕ → Bool) → ℕ → ℕ → Bool
learner_wait_ready ready time zero = false
learner_wait_ready ready time (suc looks) = ready time || learner_wait_ready ready (suc time) looks

module _ (os : Sockets) where
  -- `libevent_start` of lib/learner.c: the socket that it registers.
  unfoldable pub start_learner_events : os.System → Bool → Option ℤ × os.System
  start_learner_events w event_init_ok =
      if not event_init_ok
      then (none, w)
      else (let sock = create_udp_socket os w learners_net in
          if is_negative sock.0 then (none, sock.1) else (some sock.0, sock.1))

  -- Up to `event_dispatch`; by then `learner_ready` is set.
  unfoldable pub learner_init : os.System → Bool → Bool → Option LearnerSockets × os.System
  learner_init w has_callback event_init_ok =
      if not has_callback
      then (none, w)
      else (let out = create_udp_sender os w acceptors_net in
          if is_negative out.0
          then (none, out.1)
          else (let events = start_learner_events out.1 event_init_ok in
              elim events.0 [
                | none ↦ (none, events.1)
                | some sock ↦ (some (record { send_socket = out.0; msg_socket = sock }), events.1)
              ]))

  -- `start_learner` is at the end of `learner_init` after `delay` looks at `learner_ready`, and only
  -- prints a message if it failed. `none` is a call that has not returned after `looks` looks.
  unfoldable pub learner_init_threaded :
      os.System → Bool → Bool → Bool → ℕ → ℕ → Option ℤ × os.System
  learner_init_threaded w thread_ok has_callback event_init_ok delay looks =
      if not thread_ok
      then (some minus_one, w)
      else (let r = learner_init w has_callback event_init_ok in
          if learner_wait_ready (learner_ready r.0 delay) 0 looks
          then (some (pos 0), r.1)
          else (none, r.1))

  -- Up to `event_dispatch`.
  unfoldable pub acceptor_start :
      {db : Database}
      → os.System
      → OpenCalls
      → Bool
      → ℤ
      → Option (Acceptor db × AcceptorSockets) × os.System
  acceptor_start w calls event_init_ok id =
      if not (eqb_ℤ (disk_init_permastorage calls) (pos 0))
      then (none, w)
      else (let learner = create_udp_sender os w learners_net in
          let proposer = create_udp_sender os learner.1 proposers_net in
          let acceptor = create_udp_socket os proposer.1 acceptors_net in
          if is_negative learner.0 || (is_negative proposer.0 || is_negative acceptor.0)
          then (none, acceptor.1)
          else if not event_init_ok
          then (none, acceptor.1)
          else (
            some (
              acceptor_init id,
              record {
                learner_socket = learner.0;
                proposer_socket = proposer.0;
                acceptor_socket = acceptor.0;
              },
            ),
            acceptor.1,
          ))

  -- The socket that a leader registers, if any.
  unfoldable pub register_leader_sock : os.System → Bool → Bool → Option ℤ × os.System
  register_leader_sock w is_leader event_add_ok =
      if not is_leader
      then (none, w)
      else (let sock = create_udp_socket os w proposers_net in
          if is_negative sock.0 || not event_add_ok then (none, sock.1) else (some sock.0, sock.1))
