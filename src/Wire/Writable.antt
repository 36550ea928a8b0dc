-- ===== src/Wire/Writable.antt =====
-- The messages that have a form in bytes: an `int` has 32 bits, and a value is as long as the size
-- beside it says.
use libfastpaxos.Base.{ℕ, ◌^◌, ◌<◌, ◌≡◌, ◌⊎◌, List, length, All}
use libfastpaxos.Base.Int.{ℤ, pos, ◌≤ℤ◌, ◌<ℤ◌}
use libfastpaxos.Message.{
  PrepareMsg, PromiseMsg, AcceptMsg, LearnMsg, PaxosMsg, prepare_batch, accept, learner_sync,
  promise_batch, learn, anyval, unknown_type,
}
use libfastpaxos.Wire.Ints.{IsInt}

-- The numbers of a message are values of an `int`, and the value has its size.
abbrev pub IsPrepare : PrepareMsg → Type 0
IsPrepare m = IsInt m.iid × IsInt m.ballot

abbrev pub IsValue : ℕ → List ℕ → Type 0
IsValue size value = (length value ≡ size) × (size < 2 ^ 31)

abbrev pub IsPromise : PromiseMsg → Type 0
IsPromise m = IsInt m.iid × IsInt m.ballot × IsInt m.value_ballot × IsValue m.value_size m.value

abbrev pub IsAccept : AcceptMsg → Type 0
IsAccept m = IsInt m.iid × IsInt m.ballot × IsInt m.proposer_id × IsValue m.value_size m.value

abbrev pub IsLearn : LearnMsg → Type 0
IsLearn m =
    IsInt m.acceptor_id
    × IsInt m.iid
    × IsInt m.ballot
    × IsInt m.proposer_id
    × IsValue m.value_size m.value

-- A type that none of the constants of libpaxos_priv.h names.
abbrev pub IsOther : ℤ → Type 0
IsOther t = IsInt t × ((t ≤ℤ pos 0) ⊎ (pos 6 <ℤ t))

abbrev pub IsWritable : PaxosMsg → Type 0
IsWritable (prepare_batch ms) = All IsPrepare ms × (length ms < 2 ^ 31)
IsWritable (accept m) = IsAccept m
IsWritable (learner_sync ids) = All IsInt ids × (length ids < 2 ^ 31)
IsWritable (promise_batch id ms) = IsInt id × All IsPromise ms × (length ms < 2 ^ 31)
IsWritable (learn m) = IsLearn m
IsWritable (anyval ballot ids) = IsInt ballot × All IsInt ids × (length ids < 2 ^ 31)
IsWritable (unknown_type t) = IsOther t
