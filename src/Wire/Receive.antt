-- ===== src/Wire/Receive.antt =====
-- A packet from its bytes to the handler, at the three kinds of receivers.
use libfastpaxos.Base.{
  ℕ, ◌≤◌, Bool, not, ◌&&◌, ◌||◌, Bool-cases, inl, inr, ◌≡◌, refl, ◌∙◌, sym, ap, arith, ◌-◌, true,
  false, List, [], Option, some, ◌>>=◌, length, ltb, if◌then◌else◌,
}
use libfastpaxos.Base.Int.{ℤ, pos, ◌-ℤ◌, -ℤ_parts, eqb_ℤ, ltb_ℤ, sign_parts}
use libfastpaxos.Message.{
  PaxosMsg, prepare_batch, accept, learner_sync, learn, anyval, unknown_type, promise_batch, Packet,
  Fits, wire_size, sizeof_paxos_msg,
}
use libfastpaxos.Disk.{Database, Uninit}
use libfastpaxos.Acceptor.State.{Acceptor}
use libfastpaxos.Acceptor.Anyval.{handle_message, get_next_message}
use libfastpaxos.Learner.{Learner, handle_learner_msg}
use libfastpaxos.Leader.State.{Leader}
use libfastpaxos.Leader.Phase2.{is_too_small, leader_handle_promise_msg, leader_handle_proposer_msg}
use libfastpaxos.Wire.Ints.{read_int, put_int, read_int-put_int}
use libfastpaxos.Wire.Write.{encode, buffer, put_data, type_of}
use libfastpaxos.Wire.Read.{read_data}
use libfastpaxos.Wire.Writable.{IsWritable}
use libfastpaxos.Wire.RoundTrip.{type_of-IsInt, read_data-put}
use libfastpaxos.Wire.Sizes.{length-encode, encode-whole, length-put_data}

-- The `switch` on the type: the data of a type that a receiver does not handle are not read.
unfoldable pub read_wanted : (ℤ → Bool) → ℤ → List ℕ → Option PaxosMsg
read_wanted wanted type body = if wanted type then read_data type body else some (unknown_type type)

-- PAXOS_PREPARE, PAXOS_ACCEPT, PAXOS_LSYNC and PAXOS_ANYVAL.
abbrev pub is_request : ℤ → Bool
is_request type =
    (eqb_ℤ type (pos 1) || eqb_ℤ type (pos 2)) || (eqb_ℤ type (pos 3) || eqb_ℤ type (pos 6))

abbrev pub is_learn : ℤ → Bool
is_learn type = eqb_ℤ type (pos 5)

-- What each receiver does with the bytes that `recvfrom` has put into its buffer. `none` is a read
-- behind them. An acceptor drops a packet whose header states another size, before it reads the data.
unfoldable pub acceptor_reads :
    {db : Database} → Acceptor db → (ℤ → Uninit) → List ℕ → Option (Acceptor db)
unfolding read_int read_wanted
acceptor_reads st u bs = do
  (size, body) ← read_int bs
  (type, body) ← read_int body
  if eqb_ℤ size (pos (length bs) -ℤ pos sizeof_paxos_msg)
      then (do m ← read_wanted is_request type body; get_next_message st u (pos (length bs)) size m)
      else some st

unfoldable pub learner_reads : Learner → List ℕ → Option Learner
unfolding read_int read_wanted
learner_reads l bs = do
  (size, body) ← read_int bs
  (type, body) ← read_int body
  m ← read_wanted is_learn type body
  handle_learner_msg l m

-- A packet that is too small for a batch of promises is not read further.
unfoldable pub leader_reads : Leader → List ℕ → Option Leader
unfolding read_int read_wanted
leader_reads st bs = do
  (size, body) ← read_int bs
  (type, body) ← read_int body
  m ← read_wanted (λ t. eqb_ℤ t (pos 4) && not (is_too_small (pos (length bs)))) type body
  leader_handle_proposer_msg st (pos (length bs)) m

-- What a leader does with a message, its bytes apart.
abbrev pub leader_handles : Leader → PaxosMsg → Option Leader
leader_handles st (promise_batch acceptor_id proms) = leader_handle_promise_msg st acceptor_id proms
leader_handles st _ = some st

is_large : (n : ℕ) → 16 ≤ n → ltb n 16 ≡ false
is_large n h = ground arith

-- The message as a receiver sees it that handles these types.
abbrev seen : (ℤ → Bool) → PaxosMsg → PaxosMsg
seen wanted m = if wanted (type_of m) then m else unknown_type (type_of m)

read_wanted-put :
    (wanted : ℤ → Bool) (m : PaxosMsg)
    → IsWritable m
    → read_wanted wanted (type_of m) (put_data m []) ≡ some (seen wanted m)
unfolding read_wanted
read_wanted-put wanted m h = elim (Bool-cases (wanted (type_of m))) [
  | inl got ↦ rw got (read_data-put m h)
  | inr other ↦ rw other refl
]

-- A type that has no name is seen as it is.
seen_unknown : (wanted : ℤ → Bool) (t : ℤ) → seen wanted (unknown_type t) ≡ unknown_type t
seen_unknown wanted t = elim (Bool-cases (wanted t)) [
  | inl got ↦ rw got refl
  | inr other ↦ rw other refl
]

module _ (p : Packet) (h : IsWritable p.msg) (fits : Fits p) where
  sent : encode p ≡ buffer p
  sent = encode-whole p h fits.0

  long : length (buffer p) ≡ p.size
  long = ap length (sym sent) ∙ length-encode p h fits.0

  -- The two numbers of the header.
  header :
      (rest : List ℕ)
      → (read_int (put_int (pos (p.size - 8)) rest) ≡ some (pos (p.size - 8), rest))
        × (read_int (put_int (type_of p.msg) rest) ≡ some (type_of p.msg, rest))
  header rest = (
    read_int-put_int (pos (p.size - 8)) rest (omega (arith, fits.1)),
    read_int-put_int (type_of p.msg) rest (type_of-IsInt p.msg h),
  )

  pub acceptor_hears :
      {db : Database} (st : Acceptor db) (u : ℤ → Uninit)
      → acceptor_reads st u (encode p) ≡ handle_message st u p.msg
  unfolding acceptor_reads get_next_message buffer handle_message
  acceptor_hears st u =
      let body = put_data p.msg [] in
      let large : 8 ≤ p.size = omega (arith, fits.0, length-put_data p.msg h) in
      let whole : eqb_ℤ (pos (p.size - 8)) (pos (length (buffer p)) -ℤ pos sizeof_paxos_msg)
          ≡ true =
        ground (
          arith,
          -ℤ_parts (pos (length (buffer p))) (pos 8),
          sign_parts (pos (length (buffer p)) -ℤ pos 8),
          long,
          large,
        ) in
      let arrived : ltb_ℤ (pos (length (buffer p))) (pos 0) ≡ false = ground arith in
      rw
        (
          sent,
          (header (put_int (type_of p.msg) body)).0,
          (header body).1,
          whole,
          read_wanted-put is_request p.msg h,
          arrived,
        )
        (for_kind p.msg)
    where
      for_kind : (m : PaxosMsg) → handle_message st u (seen is_request m) ≡ handle_message st u m
      for_kind (promise_batch id ms) = refl
      for_kind (prepare_batch ms) = refl
      for_kind (accept a) = refl
      for_kind (learner_sync ids) = refl
      for_kind (learn a) = refl
      for_kind (anyval ballot ids) = refl
      for_kind (unknown_type t) = ap (handle_message st u) (seen_unknown is_request t)

  pub learner_hears : (l : Learner) → learner_reads l (encode p) ≡ handle_learner_msg l p.msg
  unfolding learner_reads buffer handle_learner_msg
  learner_hears l =
      let body = put_data p.msg [] in
      rw
        (
          sent,
          (header (put_int (type_of p.msg) body)).0,
          (header body).1,
          read_wanted-put is_learn p.msg h,
        )
        (for_kind p.msg)
    where
      for_kind : (m : PaxosMsg) → handle_learner_msg l (seen is_learn m) ≡ handle_learner_msg l m
      for_kind (promise_batch id ms) = refl
      for_kind (prepare_batch ms) = refl
      for_kind (accept a) = refl
      for_kind (learner_sync ids) = refl
      for_kind (learn a) = refl
      for_kind (anyval ballot ids) = refl
      for_kind (unknown_type t) = ap (handle_learner_msg l) (seen_unknown is_learn t)

  pub leader_hears : (st : Leader) → leader_reads st (encode p) ≡ leader_handles st p.msg
  unfolding leader_reads leader_handle_proposer_msg buffer
  leader_hears st =
      let body = put_data p.msg [] in
      rw
        (
          sent,
          (header (put_int (type_of p.msg) body)).0,
          (header body).1,
          read_wanted-put (wanted (length (buffer p))) p.msg h,
        )
        (for_kind p.msg (length (buffer p)) (long ∙ fits.0))
    where
      wanted : ℕ → ℤ → Bool
      wanted n t = eqb_ℤ t (pos 4) && not (is_too_small (pos n))

      for_kind :
          (m : PaxosMsg) (n : ℕ)
          → n ≡ wire_size m
          → leader_handle_proposer_msg st (pos n) (seen (wanted n) m) ≡ leader_handles st m
      for_kind (promise_batch id ms) n e =
          let large = is_large n (omega (arith, e)) in
          let whole : seen (wanted n) (promise_batch id ms) ≡ promise_batch id ms = rw large refl in
          ap (leader_handle_proposer_msg st (pos n)) whole ∙ rw large refl
      for_kind (prepare_batch ms) n e = refl
      for_kind (accept a) n e = refl
      for_kind (learner_sync ids) n e = refl
      for_kind (learn a) n e = refl
      for_kind (anyval ballot ids) n e = refl
      for_kind (unknown_type t) n e =
          ap (leader_handle_proposer_msg st (pos n)) (seen_unknown (wanted n) t)

  -- A packet whose size is that of its message and fits in a UDP message, with numbers that are values
  -- of an `int` and values of the sizes beside them, reaches the handler of an acceptor, of a learner
  -- and of a leader as it was sent: no test of a size stops its bytes, and a leader ignores all but
  -- promises.
  pub sent_is_handled :
      {db : Database} (st : Acceptor db) (u : ℤ → Uninit) (l : Learner) (leader : Leader)
      → (acceptor_reads st u (encode p) ≡ handle_message st u p.msg)
        × (learner_reads l (encode p) ≡ handle_learner_msg l p.msg)
        × (leader_reads leader (encode p) ≡ leader_handles leader p.msg)
  sent_is_handled st u l leader = (acceptor_hears st u, learner_hears l, leader_hears leader)
