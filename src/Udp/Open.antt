-- ===== src/Udp/Open.antt =====
-- The sockets that common/paxos_udp.c opens: ready, or left open behind an error.
use Prim.Native.Nat.{bit_or}
use libfastpaxos.Base.{
  ℕ, ◌≡◌, ◌≢◌, refl, ◌∙◌, Bool, true, false, not, none, some, if◌then◌else◌, Bool-cases, inl, inr,
  ◌⊎◌, if_by, arith,
}
use libfastpaxos.Base.Int.{ℤ, minus_one}
use libfastpaxos.Message.{Net}
use libfastpaxos.Udp.{
  Sockets, is_negative, is_error, or_fail, set_nonblocking, create_udp_socket, create_udp_sender,
}
use libfastpaxos.Udp.Posix.{Descriptor, blank, Sets, IsPosix}

-- A descriptor with one flag more, which is O_NONBLOCK.
abbrev pub nonblocking : ℕ → Descriptor → Descriptor
nonblocking n d = record d { flags = bit_or d.flags n }

-- A call behind `socket` on the descriptor `s`, for this net, that has failed.
pub data Failure (os : Sockets) (net : Net) (s : ℤ) : Type 0 where
  reuse_failed : (w : os.System) → is_error (os.reuse_address w s).0 ≡ true → Failure os net s
  membership_failed :
      (w : os.System) → is_error (os.add_membership net w s).0 ≡ true → Failure os net s
  no_address : os.has_address net ≡ false → Failure os net s
  bind_failed : (w : os.System) → is_error (os.bind net w s).0 ≡ true → Failure os net s
  get_failed : (w : os.System) → is_negative (os.get_flags w s).0 ≡ true → Failure os net s
  set_failed :
      (n : ℕ) (w : os.System) → is_negative (os.set_flags n w s).0 ≡ true → Failure os net s

module _ {os : Sockets} (posix : IsPosix os) where
  -- The descriptor of a receiver: it shares its port, is in the group of its net and bound to it, and
  -- does not block.
  abbrev pub receiver : Net → Descriptor
  receiver net =
      nonblocking os.o_nonblock
        (record { reuses = true; group = some net; bound = some net; flags = posix.flags })

  -- The descriptor of a sender does not block.
  abbrev pub sender : Descriptor
  sender = nonblocking os.o_nonblock (blank posix.flags)

module _ {os : Sockets} (posix : IsPosix os) (w : os.System) (net : Net) where
  -- The number that `socket` gave.
  abbrev sock : ℤ
  sock = (os.socket w).0

  -- The new descriptor has been told `d`, and the others are as before.
  record IsAt (w' : os.System) (d : Descriptor) : Type 0 where
    own : posix.opens w' sock ≡ some d
    others : (j : ℤ) → j ≢ sock → posix.opens w' j ≡ posix.opens w j

  -- What a function that opens a socket leaves behind. It returns the new descriptor, which is as `d`
  -- says; or -1 with nothing opened, because `socket` failed; or -1 because a later call failed, and
  -- then the new descriptor is open still. The other descriptors are as they were.
  abbrev pub Opened : Descriptor → ℤ × os.System → Type 0
  Opened d r =
      ((r.0 ≡ sock)
        × (is_negative sock ≡ false)
        × (posix.opens w sock ≡ none)
        × (posix.opens r.1 sock ≡ some d)
        × ((j : ℤ) → j ≢ sock → posix.opens r.1 j ≡ posix.opens w j))
      ⊎ ((r.0 ≡ minus_one)
          × (is_negative sock ≡ true)
          × ((j : ℤ) → posix.opens r.1 j ≡ posix.opens w j))
      ⊎ ((r.0 ≡ minus_one)
          × (is_negative sock ≡ false)
          × Failure os net sock
          × (posix.opens w sock ≡ none)
          × ((e : Descriptor) × (posix.opens r.1 sock ≡ some e))
          × ((j : ℤ) → j ≢ sock → posix.opens r.1 j ≡ posix.opens w j))

  module _ (d : Descriptor) (good : is_negative sock ≡ false) where
    leaves :
        {w' : os.System} {e : Descriptor}
        → IsAt w' e
        → Failure os net sock
        → Opened d (minus_one, w')
    leaves {e = e} a why =
        inr (inr (refl, good, why, (posix.socket_opens w good).0, (e, a.own), a.others))

    -- One call and its test.
    step :
        (call : os.System → ℤ → ℤ × os.System) (failed : ℤ → Bool)
        (change : Descriptor → Descriptor)
        → Sets posix.opens call failed change
        → (w' : os.System) (e : Descriptor) (next : os.System → ℤ × os.System) → IsAt w' e
        → (failed (call w' sock).0 ≡ true → Failure os net sock)
        → ((w'' : os.System) → IsAt w'' (change e) → Opened d (next w''))
        → Opened d (or_fail failed (call w' sock) next)
    step call failed change sets w' e next a why rest =
        let s = sets w' sock e a.own in
        let at : IsAt (call w' sock).1 (if failed (call w' sock).0 then e else change e) = record {
          own = s.0;
          others = λ j h. s.1 j h ∙ a.others j h;
        } in
        elim (Bool-cases (failed (call w' sock).0)) [
          | inl bad ↦ rw bad (leaves at (why bad))
          | inr good ↦ rw good (rest _ (rw good at at))
        ]

  new_socket : is_negative sock ≡ false → IsAt (os.socket w).1 (blank posix.flags)
  new_socket good = let s = posix.socket_opens w good in record { own = s.1; others = s.2 }

  ends :
      (w' : os.System) (d : Descriptor)
      → is_negative sock ≡ false
      → IsAt w' d
      → Opened (nonblocking os.o_nonblock d) (set_nonblocking os w' sock)
  ends w' d good a =
      let flag = os.get_flags w' sock in
      let s = posix.get_sets w' sock d a.own in
      elim (Bool-cases (is_negative flag.0)) [
        | inl bad ↦
            let own : posix.opens flag.1 sock ≡ some d = rw bad at s.0 in
            rw bad (
              leaves (nonblocking os.o_nonblock d) good
                (record { own = own; others = λ j h. s.1 j h ∙ a.others j h }) (get_failed w' bad))
        | inr got ↦
            let own : posix.opens flag.1 sock ≡ some d = rw got at s.0 in
            let n = posix.get_returns w' sock d a.own got in
            rw (got, n)
              (step (nonblocking os.o_nonblock d) good (os.set_flags (bit_or d.flags os.o_nonblock))
                is_negative (λ e. record e { flags = bit_or d.flags os.o_nonblock })
                (posix.flags_sets (bit_or d.flags os.o_nonblock)) flag.1 d (λ w. (sock, w))
                (record { own = own; others = λ j h. s.1 j h ∙ a.others j h })
                (set_failed (bit_or d.flags os.o_nonblock) flag.1)
                (λ w'' at. inl (refl, good, (posix.socket_opens w good).0, at.own, at.others)))
      ]

  no_socket : (d : Descriptor) → is_negative sock ≡ true → Opened d (minus_one, (os.socket w).1)
  no_socket d bad = inr (inl (refl, bad, λ j. posix.socket_fails w j bad))

  -- Whichever calls of the system fail: `create_udp_socket` returns a new descriptor that is in the
  -- group of its net, bound to its port, shared and not blocking; or -1 with nothing opened, because
  -- `socket` failed; or -1 because a later call failed, and then the descriptor that it opened is left
  -- open. All other descriptors are as they were.
  pub create_udp_socket-Opened : Opened (receiver posix net) (create_udp_socket os w net)
  unfolding create_udp_socket
  create_udp_socket-Opened =
      let d = receiver posix net in
      if_by (Opened d) (is_negative sock) (no_socket d) (λ good.
        step d good os.reuse_address is_error _ posix.reuse_sets _ _ _ (new_socket good)
          (reuse_failed (os.socket w).1)
          (λ w₁ a₁.
            step d good (os.add_membership net) is_error _ (posix.membership_sets net) _ _ _ a₁
              (membership_failed w₁)
              (λ w₂ a₂.
                if_by (Opened d) (not (os.has_address net))
                  (λ none_there. leaves d good a₂ (no_address (ground arith)))
                  (λ there.
                    step d good (os.bind net) is_error _ (posix.bind_sets net) _ _ _ a₂
                      (bind_failed w₂) (λ w₃ a₃. ends w₃ _ good a₃)))))

  -- A sender's descriptor is new and does not block.
  pub create_udp_sender-Opened : Opened (sender posix) (create_udp_sender os w net)
  unfolding create_udp_sender
  create_udp_sender-Opened =
      let d = sender posix in
      if_by (Opened d) (is_negative sock) (no_socket d) (λ good.
        let a = new_socket good in
        if_by (Opened d) (not (os.has_address net))
          (λ none_there. leaves d good a (no_address (ground arith)))
          (λ there. ends (os.socket w).1 (blank posix.flags) good a))
