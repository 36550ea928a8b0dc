-- ===== src/Config/Profiles.antt =====
-- The three configuration files config.h, config_highspeed.h and config_slow_debug.h, of which a
-- build takes one, and what they have to agree on.
use Prim.Native.Nat.{bit_and}
use libfastpaxos.Base.{ℕ, ◌+◌, ◌-◌, ◌%◌, ◌≤◌, ◌<◌, ◌≡◌, ◌≢◌, Bool, false, arith}
use libfastpaxos.Base.Int.{ℤ, pos, negsuc, word32}
use libfastpaxos.Base.Bits.{bit_and_511, bit_and_1023, bit_and_2047}
use libfastpaxos.Config.{
  n_of_acceptors, max_proposers, force_disk_flush, preexec_win_size, acceptor_array_size,
  learner_array_size, proposer_array_size,
}

pub record Profile : Type 0 where
  pub n_of_acceptors : ℕ
  pub max_proposers : ℕ
  pub learner_lsync_interval : ℕ
  pub promise_timeout : ℕ
  pub accept_timeout : ℕ
  pub leader_p2_timeout : ℕ
  pub force_disk_flush : Bool
  pub preexec_win_size : ℕ
  pub acceptor_array_size : ℕ
  pub learner_array_size : ℕ
  pub proposer_array_size : ℕ
  pub verbosity_level : ℕ

abbrev pub config : Profile
config = record {
  n_of_acceptors = n_of_acceptors;
  max_proposers = max_proposers;
  learner_lsync_interval = 100;
  promise_timeout = 20;
  accept_timeout = 20;
  leader_p2_timeout = 40;
  force_disk_flush = force_disk_flush;
  preexec_win_size = preexec_win_size;
  acceptor_array_size = acceptor_array_size;
  learner_array_size = learner_array_size;
  proposer_array_size = proposer_array_size;
  verbosity_level = 0;
}

abbrev pub config_highspeed : Profile
config_highspeed = record {
  n_of_acceptors = 3;
  max_proposers = 10;
  learner_lsync_interval = 100;
  promise_timeout = 20;
  accept_timeout = 20;
  leader_p2_timeout = 40;
  force_disk_flush = false;
  preexec_win_size = 256;
  acceptor_array_size = 2048;
  learner_array_size = 1024;
  proposer_array_size = 1024;
  verbosity_level = 0;
}

abbrev pub config_slow_debug : Profile
config_slow_debug = record {
  n_of_acceptors = 3;
  max_proposers = 10;
  learner_lsync_interval = 5000;
  promise_timeout = 2000;
  accept_timeout = 2000;
  leader_p2_timeout = 3000;
  force_disk_flush = false;
  preexec_win_size = 5;
  acceptor_array_size = 1024;
  learner_array_size = 512;
  proposer_array_size = 512;
  verbosity_level = 4;
}

-- The files that a build can take.
pub data ConfigFile : Type 0 where
  standard highspeed slow_debug : ConfigFile

abbrev pub profile : ConfigFile → Profile
profile standard = config
profile highspeed = config_highspeed
profile slow_debug = config_slow_debug

-- The three index macros, at the size of an array.
abbrev pub ring_index : ℕ → ℤ → ℕ
ring_index size n = bit_and (word32 n) (size - 1)

-- The mathematical remainder, from 0 on for a negative number too.
abbrev pub remainder : ℕ → ℤ → ℕ
remainder size (pos n) = n % size
remainder size (negsuc n) = size - 1 - n % size

ring_512 : (z : ℤ) → ring_index 512 z ≡ remainder 512 z
ring_512 (pos n) = omega (arith, bit_and_511 (word32 (pos n)))
ring_512 (negsuc n) = omega (arith, bit_and_511 (word32 (negsuc n)))

ring_1024 : (z : ℤ) → ring_index 1024 z ≡ remainder 1024 z
ring_1024 (pos n) = omega (arith, bit_and_1023 (word32 (pos n)))
ring_1024 (negsuc n) = omega (arith, bit_and_1023 (word32 (negsuc n)))

ring_2048 : (z : ℤ) → ring_index 2048 z ≡ remainder 2048 z
ring_2048 (pos n) = omega (arith, bit_and_2047 (word32 (pos n)))
ring_2048 (negsuc n) = omega (arith, bit_and_2047 (word32 (negsuc n)))

-- In every configuration, and for every number, negative ones included, the masks that index the
-- three arrays compute the remainder by the size of the array.
pub ring_index-remainder :
    (f : ConfigFile) (z : ℤ)
    → let p = profile f in
      (ring_index p.acceptor_array_size z ≡ remainder p.acceptor_array_size z)
      × (ring_index p.learner_array_size z ≡ remainder p.learner_array_size z)
      × (ring_index p.proposer_array_size z ≡ remainder p.proposer_array_size z)
ring_index-remainder standard z = (ring_1024 z, ring_512 z, ring_512 z)
ring_index-remainder highspeed z = (ring_2048 z, ring_1024 z, ring_1024 z)
ring_index-remainder slow_debug z = (ring_1024 z, ring_512 z, ring_512 z)

-- In every configuration, no two of the instances for which the leader runs phase 1 at a time have
-- the same index in its array, and none of them have in an acceptor's.
pub window_apart :
    (f : ConfigFile) (from i j : ℕ)
    → from ≤ i
    → i < j
    → j ≤ from + (profile f).preexec_win_size
    → (ring_index (profile f).proposer_array_size (pos i)
        ≢ ring_index (profile f).proposer_array_size (pos j))
      × (ring_index (profile f).acceptor_array_size (pos i)
          ≢ ring_index (profile f).acceptor_array_size (pos j))
window_apart standard from i j a b c = (
  λ e. omega (arith, e, ring_512 (pos i), ring_512 (pos j)),
  λ e. omega (arith, e, ring_1024 (pos i), ring_1024 (pos j)),
)
window_apart highspeed from i j a b c = (
  λ e. omega (arith, e, ring_1024 (pos i), ring_1024 (pos j)),
  λ e. omega (arith, e, ring_2048 (pos i), ring_2048 (pos j)),
)
window_apart slow_debug from i j a b c = (
  λ e. omega (arith, e, ring_512 (pos i), ring_512 (pos j)),
  λ e. omega (arith, e, ring_1024 (pos i), ring_1024 (pos j)),
)
