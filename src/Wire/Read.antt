-- ===== src/Wire/Read.antt =====
-- What the receivers of lib/acceptor.c, lib/learner.c and lib/leader.c read in their buffers. Each
-- entry of a batch is read where the one before it ends, which the source keeps as an offset.
use libfastpaxos.Base.{ℕ, zero, suc, List, [], ◌∷◌, Option, some, ◌>>=◌, if◌then◌else◌}
use libfastpaxos.Base.Int.{ℤ, pos, pos_part, eqb_ℤ}
use libfastpaxos.Message.{
  PrepareMsg, PromiseMsg, AcceptMsg, LearnMsg, PaxosMsg, prepare_batch, accept, learner_sync,
  promise_batch, learn, anyval, unknown_type,
}
use libfastpaxos.Wire.Ints.{read_int, read_size, read_bytes}

abbrev pub Reader : Type 0 → Type 0
Reader A = List ℕ → Option (A × List ℕ)

unfoldable pub read_prepare : Reader PrepareMsg
read_prepare bs = do
  (iid, bs) ← read_int bs
  (ballot, bs) ← read_int bs
  some (record { iid = iid; ballot = ballot }, bs)

unfoldable pub read_promise : Reader PromiseMsg
read_promise bs = do
  (iid, bs) ← read_int bs
  (ballot, bs) ← read_int bs
  (value_ballot, bs) ← read_int bs
  (value_size, bs) ← read_size bs
  (value, bs) ← read_bytes value_size bs
  some (
    record {
      iid = iid;
      ballot = ballot;
      value_ballot = value_ballot;
      value_size = value_size;
      value = value;
    },
    bs,
  )

unfoldable pub read_accept : Reader AcceptMsg
read_accept bs = do
  (iid, bs) ← read_int bs
  (ballot, bs) ← read_int bs
  (value_size, bs) ← read_size bs
  (proposer_id, bs) ← read_int bs
  (value, bs) ← read_bytes value_size bs
  some (
    record {
      iid = iid;
      ballot = ballot;
      value_size = value_size;
      proposer_id = proposer_id;
      value = value;
    },
    bs,
  )

unfoldable pub read_learn : Reader LearnMsg
read_learn bs = do
  (acceptor_id, bs) ← read_int bs
  (iid, bs) ← read_int bs
  (ballot, bs) ← read_int bs
  (proposer_id, bs) ← read_int bs
  (value_size, bs) ← read_size bs
  (value, bs) ← read_bytes value_size bs
  some (
    record {
      acceptor_id = acceptor_id;
      iid = iid;
      ballot = ballot;
      proposer_id = proposer_id;
      value_size = value_size;
      value = value;
    },
    bs,
  )

-- `for(i = 0; i < count; i++)` over the entries.
unfoldable pub read_all : {A : Type 0} → Reader A → ℕ → Reader (List A)
read_all read zero bs = some ([], bs)
read_all read (suc n) bs = do (x, bs) ← read bs; (xs, bs) ← read_all read n bs; some (x ∷ xs, bs)

-- A batch with its count in front. No entry is read where the count is negative.
unfoldable pub read_batch : {A : Type 0} → Reader A → Reader (List A)
read_batch read bs = do (count, bs) ← read_int bs; read_all read (pos_part count) bs

unfoldable pub read_data : ℤ → List ℕ → Option PaxosMsg
read_data type bs =
    if eqb_ℤ type (pos 1)
    then (do (ms, bs) ← read_batch read_prepare bs; some (prepare_batch ms))
    else if eqb_ℤ type (pos 2)
    then (do (m, bs) ← read_accept bs; some (accept m))
    else if eqb_ℤ type (pos 3)
    then (do (ids, bs) ← read_batch read_int bs; some (learner_sync ids))
    else if eqb_ℤ type (pos 4)
    then (do
      (acceptor_id, bs) ← read_int bs
      (ms, bs) ← read_batch read_promise bs
      some (promise_batch acceptor_id ms))
    else if eqb_ℤ type (pos 5)
    then (do (m, bs) ← read_learn bs; some (learn m))
    else if eqb_ℤ type (pos 6)
    then (do
      (ballot, bs) ← read_int bs
      (ids, bs) ← read_batch read_int bs
      some (anyval ballot ids))
    else some (unknown_type type)

-- The size in the header, and the message.
unfoldable pub decode : List ℕ → Option (ℤ × PaxosMsg)
unfolding read_data
decode bs = do
  (size, bs) ← read_int bs
  (type, bs) ← read_int bs
  m ← read_data type bs
  some (size, m)
