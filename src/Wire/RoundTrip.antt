-- ===== src/Wire/RoundTrip.antt =====
-- A receiver reads back the message that was sent.
use libfastpaxos.Base.{
  ℕ, ◌-◌, ◌^◌, ◌<◌, ◌≡◌, refl, arith, List, [], ◌∷◌, ◌++◌, subst, some, length, All,
}
use libfastpaxos.Base.Int.{pos}
use libfastpaxos.Message.{
  PrepareMsg, PromiseMsg, AcceptMsg, LearnMsg, PaxosMsg, prepare_batch, accept, learner_sync,
  promise_batch, learn, anyval, unknown_type, Packet, wire_size, sizeof_paxos_msg,
}
use libfastpaxos.Wire.Ints.{
  IsInt, put_int, read_int, read_bytes, read_int-put_int, read_size-put_int, read_bytes-append,
}
use libfastpaxos.Wire.Write.{
  put_prepare, put_promise, put_accept, put_learn, put_all, put_data, type_of, buffer, encode,
}
use libfastpaxos.Wire.Writable.{IsPrepare, IsPromise, IsAccept, IsLearn, IsWritable}
use libfastpaxos.Wire.Sizes.{encode-whole}
use libfastpaxos.Wire.Read.{
  Reader, read_prepare, read_promise, read_accept, read_learn, read_all, read_batch, read_data,
  decode,
}

read_value :
    (n : ℕ) (value rest : List ℕ)
    → length value ≡ n
    → read_bytes n (value ++ rest) ≡ some (value, rest)
read_value n value rest h =
    subst (λ k. read_bytes k (value ++ rest) ≡ some (value, rest)) h (read_bytes-append value rest)

read_prepare-put :
    (m : PrepareMsg) (rest : List ℕ)
    → IsPrepare m
    → read_prepare (put_prepare m rest) ≡ some (m, rest)
unfolding read_prepare
read_prepare-put m rest h =
    rw (read_int-put_int m.iid (put_int m.ballot rest) h.0, read_int-put_int m.ballot rest h.1) refl

read_promise-put :
    (m : PromiseMsg) (rest : List ℕ)
    → IsPromise m
    → read_promise (put_promise m rest) ≡ some (m, rest)
unfolding read_promise
read_promise-put m rest h =
    let value = m.value ++ rest in
    let sized = put_int (pos m.value_size) value in
    rw
      (
        read_int-put_int m.iid (put_int m.ballot (put_int m.value_ballot sized)) h.0,
        read_int-put_int m.ballot (put_int m.value_ballot sized) h.1,
        read_int-put_int m.value_ballot sized h.2,
        read_size-put_int m.value_size value h.3.1,
        read_value m.value_size m.value rest h.3.0,
      )
      refl

read_accept-put :
    (m : AcceptMsg) (rest : List ℕ) → IsAccept m → read_accept (put_accept m rest) ≡ some (m, rest)
unfolding read_accept
read_accept-put m rest h =
    let value = m.value ++ rest in
    let owned = put_int m.proposer_id value in
    let sized = put_int (pos m.value_size) owned in
    rw
      (
        read_int-put_int m.iid (put_int m.ballot sized) h.0,
        read_int-put_int m.ballot sized h.1,
        read_size-put_int m.value_size owned h.3.1,
        read_int-put_int m.proposer_id value h.2,
        read_value m.value_size m.value rest h.3.0,
      )
      refl

read_learn-put :
    (m : LearnMsg) (rest : List ℕ) → IsLearn m → read_learn (put_learn m rest) ≡ some (m, rest)
unfolding read_learn
read_learn-put m rest h =
    let value = m.value ++ rest in
    let sized = put_int (pos m.value_size) value in
    let owned = put_int m.proposer_id sized in
    rw
      (
        read_int-put_int m.acceptor_id (put_int m.iid (put_int m.ballot owned)) h.0,
        read_int-put_int m.iid (put_int m.ballot owned) h.1,
        read_int-put_int m.ballot owned h.2,
        read_int-put_int m.proposer_id sized h.3,
        read_size-put_int m.value_size value h.4.1,
        read_value m.value_size m.value rest h.4.0,
      )
      refl

-- A batch is read back where its entries are.
module _ {A : Type 0} (Good : A → Type 0) (put : A → List ℕ → List ℕ) (read : Reader A)
    (back : (x : A) (rest : List ℕ) → Good x → read (put x rest) ≡ some (x, rest)) where
  read_all-put_all :
      (xs : List A) (rest : List ℕ)
      → All Good xs
      → read_all read (length xs) (put_all put xs rest) ≡ some (xs, rest)
  unfolding read_all
  read_all-put_all [] rest h = refl
  read_all-put_all (x ∷ xs) rest h =
      rw (back x (put_all put xs rest) h.0, read_all-put_all xs rest h.1) refl

  read_batch-put :
      (xs : List A) (rest : List ℕ)
      → All Good xs
      → length xs < 2 ^ 31
      → read_batch read (put_int (pos (length xs)) (put_all put xs rest)) ≡ some (xs, rest)
  unfolding read_batch
  read_batch-put xs rest h n =
      rw (read_int-put_int (pos (length xs)) (put_all put xs rest) (omega arith))
        (read_all-put_all xs rest h)

pub read_data-put : (m : PaxosMsg) → IsWritable m → read_data (type_of m) (put_data m []) ≡ some m
unfolding read_data put_data
read_data-put (prepare_batch ms) h =
    rw (read_batch-put IsPrepare put_prepare read_prepare read_prepare-put ms [] h.0 h.1) refl
read_data-put (accept m) h = rw (read_accept-put m [] h) refl
read_data-put (learner_sync ids) h =
    rw (read_batch-put IsInt put_int read_int read_int-put_int ids [] h.0 h.1) refl
read_data-put (promise_batch id ms) h =
    let batch = put_int (pos (length ms)) (put_all put_promise ms []) in
    rw
      (
        read_int-put_int id batch h.0,
        read_batch-put IsPromise put_promise read_promise read_promise-put ms [] h.1 h.2,
      )
      refl
read_data-put (learn m) h = rw (read_learn-put m [] h) refl
read_data-put (anyval ballot ids) h =
    let batch = put_int (pos (length ids)) (put_all put_int ids []) in
    rw
      (
        read_int-put_int ballot batch h.0,
        read_batch-put IsInt put_int read_int read_int-put_int ids [] h.1 h.2,
      )
      refl
read_data-put (unknown_type t) h = ground arith

pub type_of-IsInt : (m : PaxosMsg) → IsWritable m → IsInt (type_of m)
type_of-IsInt (prepare_batch ms) h = omega arith
type_of-IsInt (accept m) h = omega arith
type_of-IsInt (learner_sync ids) h = omega arith
type_of-IsInt (promise_batch id ms) h = omega arith
type_of-IsInt (learn m) h = omega arith
type_of-IsInt (anyval ballot ids) h = omega arith
type_of-IsInt (unknown_type t) h = h.0

-- A receiver reads back every packet, whatever the type of its message and however many entries it
-- has: the numbers, the entries of a batch with their values of different lengths, and the size of
-- the data in the header. The conditions: the numbers are values of an `int`, the values have the
-- sizes that are written beside them, and the size that the sender has counted is the message's.
pub decode-encode :
    (p : Packet)
    → IsWritable p.msg
    → p.size ≡ wire_size p.msg
    → p.size < 2 ^ 31
    → decode (encode p) ≡ some (pos (p.size - sizeof_paxos_msg), p.msg)
unfolding decode buffer
decode-encode p h counted n =
    let body = put_data p.msg [] in
    rw
      (
        encode-whole p h counted,
        read_int-put_int (pos (p.size - 8)) (put_int (type_of p.msg) body) (omega arith),
        read_int-put_int (type_of p.msg) body (type_of-IsInt p.msg h),
        read_data-put p.msg h,
      )
      refl
