-- ===== src/Udp.antt =====
-- common/paxos_udp.c: how a receiver and a sender get their sockets, and how a message is sent. The
-- calls of the system are the parameter `Sockets`; a pair of an address and a port is a `Net`.
pub mod Posix
pub mod Open
use Prim.Native.Nat.{bit_or}
use libfastpaxos.Base.{
  ℕ, Bool, true, false, not, ◌||◌, List, Option, none, some, if◌then◌else◌, length,
}
use libfastpaxos.Base.Int.{ℤ, pos, minus_one, pos_part, ltb_ℤ, eqb_ℤ}
use libfastpaxos.Message.{Net}

-- Each call yields its result and the system behind it. `has_address` is that `inet_addr` does not
-- return INADDR_NONE for the address of a net.
pub record Sockets : Type 1 where
  pub System : Type 0
  pub socket : System → ℤ × System
  pub reuse_address : System → ℤ → ℤ × System
  pub add_membership : Net → System → ℤ → ℤ × System
  pub has_address : Net → Bool
  pub bind : Net → System → ℤ → ℤ × System
  pub get_flags : System → ℤ → ℤ × System
  pub set_flags : ℕ → System → ℤ → ℤ × System
  pub o_nonblock : ℕ
  pub sendto : Net → List ℕ → ℕ → System → ℤ → ℤ × System

abbrev pub is_negative : ℤ → Bool
is_negative r = ltb_ℤ r (pos 0)

abbrev pub is_error : ℤ → Bool
is_error r = not (eqb_ℤ r (pos 0))

-- `if (failed) return -1;` behind a call. No path closes the socket.
abbrev pub or_fail : {A : Type 0} → (ℤ → Bool) → ℤ × A → (A → ℤ × A) → ℤ × A
or_fail failed call next = if failed call.0 then (minus_one, call.1) else next call.1

module _ (os : Sockets) where
  -- The end of both functions, with the flags that `fcntl` returned.
  abbrev pub set_nonblocking : os.System → ℤ → ℤ × os.System
  set_nonblocking w sock =
      let flag = os.get_flags w sock in
      or_fail is_negative flag (λ w.
        or_fail is_negative (os.set_flags (bit_or (pos_part flag.0) os.o_nonblock) w sock)
          (λ w. (sock, w)))

  unfoldable pub create_udp_socket : os.System → Net → ℤ × os.System
  create_udp_socket w net =
      let sock = (os.socket w).0 in
      or_fail is_negative (os.socket w) (λ w. or_fail is_error (os.reuse_address w sock) (λ w.
        or_fail is_error (os.add_membership net w sock) (λ w.
          if not (os.has_address net)
          then (minus_one, w)
          else or_fail is_error (os.bind net w sock) (λ w. set_nonblocking w sock))))

  unfoldable pub create_udp_sender : os.System → Net → ℤ × os.System
  create_udp_sender w net =
      let sock = (os.socket w).0 in
      or_fail is_negative (os.socket w)
        (λ w. if not (os.has_address net) then (minus_one, w) else set_nonblocking w sock)

  -- A message that is sent in part only is an error too.
  unfoldable pub udp_send : os.System → ℤ → Net → List ℕ → ℕ → ℤ × os.System
  udp_send w sock net msg size =
      let cnt = os.sendto net msg size w sock in
      if not (eqb_ℤ cnt.0 (pos size)) || eqb_ℤ cnt.0 minus_one then (minus_one, cnt.1) else cnt
