-- ===== src/Tests/StartRuns.antt =====
-- A system whose descriptors are numbered from 0 on, and a learner and an acceptor that start on it.
use libfastpaxos.Base.{
  ℕ, suc, ◌≡◌, ◌≢◌, refl, sym, ap, Bool, true, false, ◌||◌, Option, none, some, ltb, if◌then◌else◌,
  update, update_self, update_ne, Bool-cases, inl, inr, ◌⊎◌, arith,
}
use mathlib.Core.Option.{some-injective}
use libfastpaxos.Base.Int.{ℤ, pos, negsuc, minus_one, eqb_ℤ}
use libfastpaxos.Message.{learners_net, acceptors_net, proposers_net}
use libfastpaxos.Acceptor.State.{acceptor_init}
use libfastpaxos.Udp.{Sockets, is_negative, is_error, create_udp_socket, create_udp_sender}
use libfastpaxos.Udp.Posix.{Descriptor, blank, Sets, IsPosix}
use libfastpaxos.Udp.Open.{Opened, receiver, create_udp_socket-Opened}
use libfastpaxos.Startup.{
  OpenCalls, LearnerSockets, AcceptorSockets, learner_init, learner_init_threaded, acceptor_start,
  disk_init_permastorage,
}
use libfastpaxos.Startup.Ready.{
  IsListening, LearnerFails, IsServing, learner_init_threaded-cases, acceptor_start-cases,
}
use libfastpaxos.Tests.AcceptorRuns.{memory_db}

-- The descriptors below `next` are open.
record Table : Type 0 where
  next : ℕ
  at : ℕ → Descriptor

abbrev opens : Table → ℤ → Option Descriptor
opens w (pos k) = if ltb k w.next then some (w.at k) else none
opens w (negsuc k) = none

abbrev new_socket : Table → ℤ × Table
new_socket w = (pos w.next, record { next = suc w.next; at = update w.at w.next (blank 2) })

abbrev tell : (Descriptor → Descriptor) → Table → ℤ → ℤ × Table
tell change w (pos k) = (pos 0, record w { at = update w.at k (change (w.at k)) })
tell change w (negsuc k) = (pos 0, w)

abbrev flags_of : Table → ℤ → ℤ × Table
flags_of w (pos k) = (pos (w.at k).flags, w)
flags_of w (negsuc k) = (pos 0, w)

abbrev table_os : Sockets
table_os = record {
  System = Table;
  socket = new_socket;
  reuse_address = tell (λ d. record d { reuses = true });
  add_membership = λ net. tell (λ d. record d { group = some net });
  has_address = λ net. true;
  bind = λ net. tell (λ d. record d { bound = some net });
  get_flags = flags_of;
  set_flags = λ n. tell (λ d. record d { flags = n });
  o_nonblock = 2048;
  sendto = λ net msg size w s. (pos size, w);
}

tell-Sets :
    (failed : ℤ → Bool) (change : Descriptor → Descriptor)
    → failed (pos 0) ≡ false
    → Sets opens (tell change) failed change
tell-Sets failed change ok w (negsuc k) d h = absurd (cc h)
tell-Sets failed change ok w (pos k) d h = elim (Bool-cases (ltb k w.next)) [
  | inr out ↦ let p : none ≡ some d = rw out at h in absurd (cc p)
  | inl in_use ↦
      let p : some (w.at k) ≡ some d = rw in_use at h in
      let e = some-injective _ _ p in
      (rw (in_use, ok, update_self w.at k (change (w.at k))) (ap (λ x. some (change x)) e), others)
]
  where
    others : (j : ℤ) → j ≢ pos k → opens (tell change w (pos k)).1 j ≡ opens w j
    others (negsuc j) n = refl
    others (pos j) n =
        ap (λ x. if ltb j w.next then some x else none)
          (update_ne w.at k j (change (w.at k)) (λ e. n (ap pos (sym e))))

one_more : (n : ℕ) → (ltb n n ≡ false) × (ltb n (suc n) ≡ true)
one_more n = (ground arith, ground arith)

others_kept : (w : Table) (j : ℤ) → j ≢ pos w.next → opens (new_socket w).1 j ≡ opens w j
others_kept w (negsuc j) n = refl
others_kept w (pos j) n =
    let apart : w.next ≢ j = λ e. n (ap pos (sym e)) in
    let same : ltb j (suc w.next) ≡ ltb j w.next = ground arith in
    rw (same, update_ne w.at w.next j (blank 2) apart) refl

flags_of-returns :
    (w : Table) (s : ℤ) (d : Descriptor) → opens w s ≡ some d → (flags_of w s).0 ≡ pos d.flags
flags_of-returns w (negsuc k) d h = absurd (cc h)
flags_of-returns w (pos k) d h = elim (Bool-cases (ltb k w.next)) [
  | inr out ↦ let p : none ≡ some d = rw out at h in absurd (cc p)
  | inl in_use ↦
      let p : some (w.at k) ≡ some d = rw in_use at h in
      ap (λ x. pos x.flags) (some-injective _ _ p)
]

flags_of-keeps : (w : Table) (s : ℤ) → (flags_of w s).1 ≡ w
flags_of-keeps w (pos k) = refl
flags_of-keeps w (negsuc k) = refl

either : (b : Bool) (d : Descriptor) → (if b then d else d) ≡ d
either true d = refl
either false d = refl

not_negative : (n : ℕ) → is_negative (pos n) ≡ true → ⊥
not_negative n h = ground arith

table_os-IsPosix : IsPosix table_os
table_os-IsPosix = record {
  opens = opens;
  flags = 2;
  socket_fails = λ w j bad. absurd (not_negative w.next bad);
  socket_opens = λ w good. (
    rw (one_more w.next).0 refl,
    rw ((one_more w.next).1, update_self w.at w.next (blank 2)) refl,
    others_kept w,
  );
  reuse_sets = tell-Sets is_error (λ d. record d { reuses = true }) refl;
  membership_sets = λ net. tell-Sets is_error (λ d. record d { group = some net }) refl;
  bind_sets = λ net. tell-Sets is_error (λ d. record d { bound = some net }) refl;
  get_sets = λ w s d h. (
    rw (flags_of-keeps w s) (rw (either (is_negative (flags_of w s).0) d) h),
    λ j n. rw (flags_of-keeps w s) refl,
  );
  get_returns = λ w s d h good. flags_of-returns w s d h;
  flags_sets = λ n. tell-Sets is_negative (λ d. record d { flags = n }) refl;
}

-- The three standard descriptors are open.
abbrev table : Table
table = record { next = 3; at = λ _. blank 2 }

-- The first number, and a descriptor with O_NONBLOCK in its flags.
opens_third : (create_udp_socket table_os table learners_net).0 ≡ pos 3
unfolding create_udp_socket
opens_third = refl

create_udp_socket-Opened_example :
    Opened table_os-IsPosix table learners_net
      (receiver table_os-IsPosix learners_net)
      (create_udp_socket table_os table learners_net)
create_udp_socket-Opened_example = create_udp_socket-Opened table_os-IsPosix table learners_net

-- The last call fails.
abbrev stubborn : Sockets
stubborn = record table_os { set_flags = λ n w s. (minus_one, w) }

leaves_open :
    ((create_udp_socket stubborn table learners_net).0 ≡ minus_one)
    × (opens (create_udp_socket stubborn table learners_net).1 (pos 3)
        ≡ some (record {
          reuses = true;
          group = some learners_net;
          bound = some learners_net;
          flags = 2;
        }))
unfolding create_udp_socket
leaves_open = (refl, refl)

-- The event loop of the learner's thread cannot be made: no look at the flag ends the wait.
waits_for_ever : (learner_init_threaded table_os table true true false 0 50).0 ≡ none
unfolding learner_init_threaded learner_init create_udp_sender
    libfastpaxos.Startup.start_learner_events libfastpaxos.Startup.learner_wait_ready
waits_for_ever = refl

learner_init_threaded-cases_example :
    let r = learner_init_threaded table_os table true true true 3 10 in
    ((r.0 ≡ some (pos 0))
      × (true ≡ true)
      × ((s : LearnerSockets) × ((learner_init table_os table true true).0 ≡ some s)
          × IsListening table_os-IsPosix s r.1))
    ⊎ ((r.0 ≡ some minus_one) × (true ≡ false) × (r.1 ≡ table))
    ⊎ ((r.0 ≡ none) × (true ≡ true) × LearnerFails table_os-IsPosix table true true)
learner_init_threaded-cases_example =
    learner_init_threaded-cases table_os-IsPosix table true true true 3 10 (ground arith)

abbrev opened : OpenCalls
opened = record { db_create = pos 0; db_open = pos 0 }

acceptor_start-cases_example :
    let r = acceptor_start table_os {db = memory_db} table opened true (pos 2) in
    let learner = create_udp_sender table_os table learners_net in
    let proposer = create_udp_sender table_os learner.1 proposers_net in
    let acceptor = create_udp_socket table_os proposer.1 acceptors_net in
    ((eqb_ℤ (disk_init_permastorage opened) (pos 0) ≡ true)
      × (is_negative learner.0 || (is_negative proposer.0 || is_negative acceptor.0) ≡ false)
      × (true ≡ true)
      × ((s : AcceptorSockets) × (r.0 ≡ some (acceptor_init (pos 2), s))
          × IsServing table_os-IsPosix s r.1))
    ⊎ ((r.0 ≡ none)
        × ((eqb_ℤ (disk_init_permastorage opened) (pos 0) ≡ false)
            ⊎ (is_negative learner.0 || (is_negative proposer.0 || is_negative acceptor.0) ≡ true)
            ⊎ (true ≡ false)))
acceptor_start-cases_example = acceptor_start-cases table_os-IsPosix table opened true (pos 2)
