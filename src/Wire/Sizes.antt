-- ===== src/Wire/Sizes.antt =====
-- How many bytes a message takes.
use libfastpaxos.Base.{
  ◌+◌, ◌-◌, ◌*◌, ◌≡◌, refl, ◌∙◌, sym, arith, List, [], ◌∷◌, ◌++◌, length, length-append,
  take-length, All,
}
use libfastpaxos.Base.Int.{ℤ, pos}
use libfastpaxos.Message.{
  PrepareMsg, PromiseMsg, PaxosMsg, prepare_batch, accept, learner_sync, promise_batch, learn,
  anyval, unknown_type, Packet, wire_size, promises_size,
}
use libfastpaxos.Wire.Ints.{put_int, length-put_int}
use libfastpaxos.Wire.Write.{type_of, put_prepare, put_promise, put_all, put_data, buffer, encode}
use libfastpaxos.Wire.Writable.{IsWritable, IsPromise}

length-prepares : (ms : List PrepareMsg) → length (put_all put_prepare ms []) ≡ 8 * length ms
length-prepares [] = omega arith
length-prepares (m ∷ ms) =
    let rest = put_all put_prepare ms [] in
    omega (
      arith,
      length-put_int m.iid (put_int m.ballot rest),
      length-put_int m.ballot rest,
      length-prepares ms,
    )

length-ids : (ids : List ℤ) → length (put_all put_int ids []) ≡ 4 * length ids
length-ids [] = omega arith
length-ids (i ∷ ids) = omega (arith, length-put_int i (put_all put_int ids []), length-ids ids)

length-promises :
    (ms : List PromiseMsg)
    → All IsPromise ms
    → length (put_all put_promise ms []) ≡ promises_size ms
length-promises [] h = refl
length-promises (m ∷ ms) h =
    let rest = put_all put_promise ms [] in
    let sized = put_int (pos m.value_size) (m.value ++ rest) in
    omega (
      arith,
      length-put_int m.iid (put_int m.ballot (put_int m.value_ballot sized)),
      length-put_int m.ballot (put_int m.value_ballot sized),
      length-put_int m.value_ballot sized,
      length-put_int (pos m.value_size) (m.value ++ rest),
      length-append m.value rest,
      h.0.3.0,
      length-promises ms h.1,
    )

pub length-put_data : (m : PaxosMsg) → IsWritable m → length (put_data m []) + 8 ≡ wire_size m
unfolding put_data
length-put_data (prepare_batch ms) h =
    omega (arith, length-put_int (pos (length ms)) (put_all put_prepare ms []), length-prepares ms)
length-put_data (accept m) h =
    let value = m.value ++ [] in
    let owned = put_int m.proposer_id value in
    let sized = put_int (pos m.value_size) owned in
    omega (
      arith,
      length-put_int m.iid (put_int m.ballot sized),
      length-put_int m.ballot sized,
      length-put_int (pos m.value_size) owned,
      length-put_int m.proposer_id value,
      length-append m.value [],
      h.3.0,
    )
length-put_data (learner_sync ids) h =
    omega (arith, length-put_int (pos (length ids)) (put_all put_int ids []), length-ids ids)
length-put_data (promise_batch id ms) h =
    let batch = put_all put_promise ms [] in
    omega (
      arith,
      length-put_int id (put_int (pos (length ms)) batch),
      length-put_int (pos (length ms)) batch,
      length-promises ms h.1,
    )
length-put_data (learn m) h =
    let value = m.value ++ [] in
    let sized = put_int (pos m.value_size) value in
    let owned = put_int m.proposer_id sized in
    omega (
      arith,
      length-put_int m.acceptor_id (put_int m.iid (put_int m.ballot owned)),
      length-put_int m.iid (put_int m.ballot owned),
      length-put_int m.ballot owned,
      length-put_int m.proposer_id sized,
      length-put_int (pos m.value_size) value,
      length-append m.value [],
      h.4.0,
    )
length-put_data (anyval ballot ids) h =
    let batch = put_all put_int ids [] in
    omega (
      arith,
      length-put_int ballot (put_int (pos (length ids)) batch),
      length-put_int (pos (length ids)) batch,
      length-ids ids,
    )
length-put_data (unknown_type t) h = omega arith

length-buffer : (p : Packet) → IsWritable p.msg → length (buffer p) ≡ wire_size p.msg
unfolding buffer
length-buffer p h =
    let body = put_data p.msg [] in
    omega (
      arith,
      length-put_int (pos (p.size - 8)) (put_int (type_of p.msg) body),
      length-put_int (type_of p.msg) body,
      length-put_data p.msg h,
    )

-- A sender that counts right sends all that it has written, and nothing behind it.
pub encode-whole : (p : Packet) → IsWritable p.msg → p.size ≡ wire_size p.msg → encode p ≡ buffer p
unfolding encode
encode-whole p h counted = take-length p.size (buffer p) (omega (arith, counted, length-buffer p h))

pub length-encode :
    (p : Packet) → IsWritable p.msg → p.size ≡ wire_size p.msg → length (encode p) ≡ p.size
length-encode p h counted = rw (encode-whole p h counted) (length-buffer p h ∙ sym counted)
