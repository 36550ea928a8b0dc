-- ===== src/Udp/Posix.antt =====
-- What common/paxos_udp.c relies on of the socket interface.
use libfastpaxos.Base.{ℕ, ◌≡◌, ◌≢◌, Bool, true, false, Option, none, some, if◌then◌else◌}
use libfastpaxos.Base.Int.{ℤ, pos}
use libfastpaxos.Message.{Net}
use libfastpaxos.Udp.{Sockets, is_negative, is_error}

-- What an open descriptor was told.
pub record Descriptor : Type 0 where
  pub reuses : Bool
  pub group : Option Net
  pub bound : Option Net
  pub flags : ℕ

-- A socket that was told nothing.
abbrev pub blank : ℕ → Descriptor
blank flags = record { reuses = false; group = none; bound = none; flags = flags }

-- A call on an open descriptor changes that one alone, and only if it does not fail.
abbrev pub Sets :
    {A : Type 0}
    → (A → ℤ → Option Descriptor)
    → (A → ℤ → ℤ × A)
    → (ℤ → Bool)
    → (Descriptor → Descriptor)
    → Type 0
Sets {A = A} opens call failed change =
    (w : A) (s : ℤ) (d : Descriptor)
    → opens w s ≡ some d
    → (opens (call w s).1 s ≡ some (if failed (call w s).0 then d else change d))
      × ((j : ℤ) → j ≢ s → opens (call w s).1 j ≡ opens w j)

-- The open descriptors of a system: a new one is none of those before.
pub record IsPosix (os : Sockets) : Type 0 where
  pub opens : os.System → ℤ → Option Descriptor
  pub flags : ℕ
  pub socket_fails :
      (w : os.System) (j : ℤ)
      → is_negative (os.socket w).0 ≡ true
      → opens (os.socket w).1 j ≡ opens w j
  pub socket_opens :
      (w : os.System)
      → is_negative (os.socket w).0 ≡ false
      → (opens w (os.socket w).0 ≡ none)
        × (opens (os.socket w).1 (os.socket w).0 ≡ some (blank flags))
        × ((j : ℤ) → j ≢ (os.socket w).0 → opens (os.socket w).1 j ≡ opens w j)
  pub reuse_sets : Sets opens os.reuse_address is_error (λ d. record d { reuses = true })
  pub membership_sets :
      (net : Net) → Sets opens (os.add_membership net) is_error (λ d. record d { group = some net })
  pub bind_sets :
      (net : Net) → Sets opens (os.bind net) is_error (λ d. record d { bound = some net })
  pub get_sets : Sets opens os.get_flags is_negative (λ d. d)
  pub get_returns :
      (w : os.System) (s : ℤ) (d : Descriptor)
      → opens w s ≡ some d
      → is_negative (os.get_flags w s).0 ≡ false
      → (os.get_flags w s).0 ≡ pos d.flags
  pub flags_sets : (n : ℕ) → Sets opens (os.set_flags n) is_negative (λ d. record d { flags = n })
