-- ===== src/Startup/Ready.antt =====
-- What the programs find when they enter their loops.
use libfastpaxos.Base.{
  ℕ, zero, suc, ◌+◌, ◌<◌, ◌≤◌, leb, arith, ◌≡◌, ◌≢◌, refl, ◌∙◌, sym, subst, Bool, true, false, ◌||◌,
  none, some, Bool-cases, inl, inr, ◌⊎◌,
}
use libfastpaxos.Base.Int.{ℤ, pos, minus_one, eqb_ℤ}
use libfastpaxos.Message.{Net, learners_net, acceptors_net, proposers_net}
use libfastpaxos.Disk.{Database}
use libfastpaxos.Acceptor.State.{acceptor_init}
use libfastpaxos.Udp.{Sockets, is_negative, create_udp_socket, create_udp_sender}
use libfastpaxos.Udp.Posix.{Descriptor, IsPosix}
use libfastpaxos.Udp.Open.{
  Opened, sender, receiver, create_udp_socket-Opened, create_udp_sender-Opened,
}
use libfastpaxos.Startup.{
  OpenCalls, disk_init_permastorage, LearnerSockets, AcceptorSockets, start_learner_events,
  learner_init, learner_init_threaded, acceptor_start, learner_ready, learner_wait_ready,
}

or_false : (a b : Bool) → a || b ≡ false → (a ≡ false) × (b ≡ false)
or_false true b h = absurd (cc h)
or_false false b h = (refl, h)

minus_one_fails : (n : ℤ) → n ≡ minus_one → is_negative n ≡ false → ⊥
minus_one_fails n e good = let f : true ≡ false = subst (λ x. is_negative x ≡ false) e good in cc f

wait-ends :
    (delay looks time : ℕ) (s : LearnerSockets)
    → time ≤ delay
    → delay < time + looks
    → learner_wait_ready (learner_ready (some s) delay) time looks ≡ true
unfolding learner_wait_ready
wait-ends delay zero time s at h = absurd (omega arith)
wait-ends delay (suc looks) time s at h = elim (Bool-cases (leb delay time)) [
  | inl now ↦ rw now refl
  | inr later ↦ rw later (wait-ends delay looks (suc time) s (ground arith) (omega arith))
]

wait-goes_on :
    (delay looks time : ℕ) → learner_wait_ready (learner_ready none delay) time looks ≡ false
unfolding learner_wait_ready
wait-goes_on delay zero time = refl
wait-goes_on delay (suc looks) time = wait-goes_on delay looks (suc time)

module _ {os : Sockets} (posix : IsPosix os) where
  -- One descriptor more, as `d` says.
  record IsGained (w : os.System) (d : Descriptor) (r : ℤ × os.System) : Type 0 where
    free : posix.opens w r.0 ≡ none
    own : posix.opens r.1 r.0 ≡ some d
    others : (j : ℤ) → j ≢ r.0 → posix.opens r.1 j ≡ posix.opens w j

  gained :
      (w : os.System) (net : Net) (d : Descriptor) (r : ℤ × os.System)
      → Opened posix w net d r
      → is_negative r.0 ≡ false
      → IsGained w d r
  gained w net d r (inr (inl (e, fails, h))) good = absurd (minus_one_fails r.0 e good)
  gained w net d r (inr (inr (e, found, why, free, left, others))) good =
      absurd (minus_one_fails r.0 e good)
  gained w net d r (inl (e, h, free, own, others)) good = record {
    free = rw e free;
    own = rw e own;
    others = λ j n. others j (λ p. n (p ∙ sym e));
  }

  -- A descriptor that was open before is another one.
  apart :
      (w : os.System) (d e : Descriptor) (r : ℤ × os.System) (s : ℤ)
      → IsGained w d r
      → posix.opens w s ≡ some e
      → s ≢ r.0
  apart w d e r s g h p = absurd (cc (g.free, h, p))

  keeps :
      (w : os.System) (d e : Descriptor) (r : ℤ × os.System) (s : ℤ)
      → IsGained w d r
      → posix.opens w s ≡ some e
      → posix.opens r.1 s ≡ some e
  keeps w d e r s g h = g.others s (apart w d e r s g h) ∙ h

  -- The learner's thread in its loop: two new sockets, one that sends, one that receives.
  pub record IsListening (s : LearnerSockets) (w' : os.System) : Type 0 where
    pub sends : posix.opens w' s.send_socket ≡ some (sender posix)
    pub hears : posix.opens w' s.msg_socket ≡ some (receiver posix learners_net)
    pub differ : s.send_socket ≢ s.msg_socket

  -- Why the thread of a learner does not come to its loop.
  abbrev pub LearnerFails : os.System → Bool → Bool → Type 0
  LearnerFails w has_callback ok =
      let out = create_udp_sender os w acceptors_net in
      (has_callback ≡ false)
      ⊎ (is_negative out.0 ≡ true)
      ⊎ (ok ≡ false)
      ⊎ (is_negative (create_udp_socket os out.1 learners_net).0 ≡ true)

  events-cases :
      (w : os.System) (ok : Bool)
      → let ev = start_learner_events os w ok in
        ((s : ℤ) × (ev.0 ≡ some s) × IsGained w (receiver posix learners_net) (s, ev.1))
        ⊎ ((ev.0 ≡ none)
            × ((ok ≡ false) ⊎ (is_negative (create_udp_socket os w learners_net).0 ≡ true)))
  unfolding start_learner_events
  events-cases w false = inr (refl, inl refl)
  events-cases w true =
      let sock = create_udp_socket os w learners_net in
      elim (Bool-cases (is_negative sock.0)) [
        | inl bad ↦ rw bad (inr (refl, inr refl))
        | inr good ↦
            let g =
              gained w learners_net _ sock (create_udp_socket-Opened posix w learners_net) good in
            rw good (inl (sock.0, refl, g))
      ]

  learner_init-cases :
      (w : os.System) (has_callback ok : Bool)
      → let r = learner_init os w has_callback ok in
        ((s : LearnerSockets) × (r.0 ≡ some s) × IsListening s r.1)
        ⊎ ((r.0 ≡ none) × LearnerFails w has_callback ok)
  unfolding learner_init
  learner_init-cases w false ok = inr (refl, inl refl)
  learner_init-cases w true ok =
      let out = create_udp_sender os w acceptors_net in
      elim (Bool-cases (is_negative out.0)) [
        | inl bad ↦ rw bad (inr (refl, inr (inl refl)))
        | inr good ↦ elim (events-cases out.1 ok) [
          | inr (e, why) ↦ rw (good, e) (inr (refl, inr (inr why)))
          | inl (s, e, g) ↦
              let o =
                gained w acceptors_net _ out (create_udp_sender-Opened posix w acceptors_net)
                  good in
              let both : IsListening (record { send_socket = out.0; msg_socket = s })
                  (start_learner_events os out.1 ok).1 =
                record {
                  sends = keeps out.1 _ _ _ out.0 g o.own;
                  hears = g.own;
                  differ = apart out.1 _ _ _ out.0 g o.own;
                } in
              rw (good, e) (inl (_, refl, both))
        ]
      ]

  -- `learner_init_threaded` returns -1 if there is no thread. With a thread, if the thread comes to
  -- its loop before the last look at `learner_ready`, the call returns 0, and the learner listens on a
  -- socket of the learners' group, beside another by which it sends; if there is no callback, no
  -- socket or no event loop, so that `learner_init` fails in the thread, the call does not return
  -- within any number of looks.
  pub learner_init_threaded-cases :
      (w : os.System) (thread_ok has_callback ok : Bool) (delay looks : ℕ)
      → delay < looks
      → let r = learner_init_threaded os w thread_ok has_callback ok delay looks in
        ((r.0 ≡ some (pos 0))
          × (thread_ok ≡ true)
          × ((s : LearnerSockets) × ((learner_init os w has_callback ok).0 ≡ some s)
              × IsListening s r.1))
        ⊎ ((r.0 ≡ some minus_one) × (thread_ok ≡ false) × (r.1 ≡ w))
        ⊎ ((r.0 ≡ none) × (thread_ok ≡ true) × LearnerFails w has_callback ok)
  unfolding learner_init_threaded
  learner_init_threaded-cases w false has_callback ok delay looks h = inr (inl (refl, refl, refl))
  learner_init_threaded-cases w true has_callback ok delay looks h =
      elim (learner_init-cases w has_callback ok) [
        | inl (s, e, l) ↦
            rw (e, wait-ends delay looks 0 s (omega arith) (omega arith))
              (inl (refl, refl, (s, refl, l)))
        | inr (e, why) ↦ rw (e, wait-goes_on delay looks 0) (inr (inr (refl, refl, why)))
      ]

  -- An acceptor in its loop: three sockets.
  pub record IsServing (s : AcceptorSockets) (w' : os.System) : Type 0 where
    pub learners : posix.opens w' s.learner_socket ≡ some (sender posix)
    pub proposers : posix.opens w' s.proposer_socket ≡ some (sender posix)
    pub acceptors : posix.opens w' s.acceptor_socket ≡ some (receiver posix acceptors_net)
    pub senders_differ : s.learner_socket ≢ s.proposer_socket
    pub learner_differs : s.learner_socket ≢ s.acceptor_socket
    pub proposer_differs : s.proposer_socket ≢ s.acceptor_socket

  -- An acceptor enters its loop exactly if its database is opened, no socket is missing and the event
  -- loop can start; otherwise it returns. In its loop it is in the first state of `acceptor_init`, with
  -- three different sockets: two that send, and one that hears the acceptors' group.
  pub acceptor_start-cases :
      {db : Database} (w : os.System) (calls : OpenCalls) (ok : Bool) (id : ℤ)
      → let r = acceptor_start os {db = db} w calls ok id in
        let learner = create_udp_sender os w learners_net in
        let proposer = create_udp_sender os learner.1 proposers_net in
        let acceptor = create_udp_socket os proposer.1 acceptors_net in
        ((eqb_ℤ (disk_init_permastorage calls) (pos 0) ≡ true)
          × (is_negative learner.0 || (is_negative proposer.0 || is_negative acceptor.0) ≡ false)
          × (ok ≡ true)
          × ((s : AcceptorSockets) × (r.0 ≡ some (acceptor_init id, s)) × IsServing s r.1))
        ⊎ ((r.0 ≡ none)
            × ((eqb_ℤ (disk_init_permastorage calls) (pos 0) ≡ false)
                ⊎ (is_negative learner.0 || (is_negative proposer.0 || is_negative acceptor.0)
                    ≡ true)
                ⊎ (ok ≡ false)))
  unfolding acceptor_start
  acceptor_start-cases w calls ok id =
      let learner = create_udp_sender os w learners_net in
      let proposer = create_udp_sender os learner.1 proposers_net in
      let acceptor = create_udp_socket os proposer.1 acceptors_net in
      elim (Bool-cases (eqb_ℤ (disk_init_permastorage calls) (pos 0))) [
        | inr bad ↦ rw bad (inr (refl, inl refl))
        | inl disk ↦
            elim (Bool-cases
              (is_negative learner.0 || (is_negative proposer.0 || is_negative acceptor.0))) [
                | inl bad ↦ rw (disk, bad) (inr (refl, inr (inl refl)))
                | inr good ↦ elim (Bool-cases ok) [
                  | inr bad ↦ rw (disk, good, bad) (inr (refl, inr (inr refl)))
                  | inl go ↦
                      let (l, more) = or_false _ _ good in
                      let (p, a) = or_false _ _ more in
                      let gl =
                        gained w _ _ learner (create_udp_sender-Opened posix w learners_net) l in
                      let gp =
                        gained learner.1 _ _ proposer
                          (create_udp_sender-Opened posix learner.1 proposers_net) p in
                      let ga =
                        gained proposer.1 _ _ acceptor
                          (create_udp_socket-Opened posix proposer.1 acceptors_net) a in
                      let kept = keeps learner.1 _ _ proposer learner.0 gp gl.own in
                      let serving : IsServing
                          (record {
                            learner_socket = learner.0;
                            proposer_socket = proposer.0;
                            acceptor_socket = acceptor.0;
                          })
                          acceptor.1 =
                        record {
                          learners = keeps proposer.1 _ _ acceptor learner.0 ga kept;
                          proposers = keeps proposer.1 _ _ acceptor proposer.0 ga gp.own;
                          acceptors = ga.own;
                          senders_differ = apart learner.1 _ _ proposer learner.0 gp gl.own;
                          learner_differs = apart proposer.1 _ _ acceptor learner.0 ga kept;
                          proposer_differs = apart proposer.1 _ _ acceptor proposer.0 ga gp.own;
                        } in
                      rw (disk, good, go) (inl (refl, refl, refl, (_, refl, serving)))
                ]
              ]
      ]
