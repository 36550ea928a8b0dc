-- ===== src/Config.antt =====
-- config.h, the constants of libpaxos.h and of the headers' macros: sizes of the ring arrays, the
-- masks that index them, ballots, and the quorum.
pub mod Index
pub mod Quorum
pub mod Profiles
use Prim.Native.Nat.{bit_and}
use libfastpaxos.Base.{ℕ, ◌+◌, ◌-◌, ◌*◌, ◌/◌, Bool, false}
use libfastpaxos.Base.Int.{ℤ, pos, ◌+ℤ◌, word32}

abbrev pub n_of_acceptors : ℕ
n_of_acceptors = 3

abbrev pub max_proposers : ℕ
max_proposers = 10

abbrev pub force_disk_flush : Bool
force_disk_flush = false

abbrev pub preexec_win_size : ℕ
preexec_win_size = 50

abbrev pub acceptor_array_size : ℕ
acceptor_array_size = 1024

abbrev pub learner_array_size : ℕ
learner_array_size = 512

abbrev pub proposer_array_size : ℕ
proposer_array_size = 512

abbrev pub max_udp_msg_size : ℕ
max_udp_msg_size = 9000

abbrev pub max_value_size : ℕ
max_value_size = 8960

-- `n & (size - 1)` on the 32 bits of an `int`.
unfoldable pub get_acc_index : ℤ → ℕ
get_acc_index n = bit_and (word32 n) (acceptor_array_size - 1)

unfoldable pub get_lea_index : ℤ → ℕ
get_lea_index n = bit_and (word32 n) (learner_array_size - 1)

unfoldable pub get_pro_index : ℤ → ℕ
get_pro_index n = bit_and (word32 n) (proposer_array_size - 1)

-- `1 + (int)((double)(N*2)/3)`. The double quotient truncates to the integer quotient: a fraction
-- that is not whole is a third away from the next integer.
abbrev pub quorum_of : ℕ → ℕ
quorum_of n = 1 + n * 2 / 3

abbrev pub quorum : ℕ
quorum = quorum_of n_of_acceptors

-- The least ballot of a leader; an accept message of a proposer has a smaller one.
abbrev pub min_ballot : ℤ
min_ballot = pos (2 * max_proposers)

abbrev pub first_ballot : ℤ → ℤ
first_ballot proposer_id = pos (2 * max_proposers) +ℤ proposer_id

abbrev pub ballot_next : ℤ → ℤ
ballot_next ballot = ballot +ℤ pos max_proposers
