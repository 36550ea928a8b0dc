-- ===== src/Acceptor/Buffer.antt =====
-- The send buffer of lib/acceptor.c: its size, the length of the packets, and the promises of a batch
-- that is flushed in the middle.
use mathlib.Core.List.{append-nil, append_assoc}
use libfastpaxos.Base.{
  ℕ, ◌+◌, ◌≤◌, ◌≡◌, refl, ◌∙◌, sym, ap, Bool, true, List, [], ◌∷◌, ◌++◌, arith, ltb, ◌==◌,
  Bool-cases, inl, inr, ◌⊎◌, All, All-append,
}
use libfastpaxos.Config.{max_udp_msg_size, max_value_size}
use libfastpaxos.Message.{
  Fits, PromiseMsg, PaxosMsg, prepare_batch, accept, learner_sync, promise_batch, learn, anyval,
  unknown_type, Packet, promises_size, sizeof_promise_msg,
}
use libfastpaxos.Disk.{Database, AcceptorRecord, disk_force_syncrony}
use libfastpaxos.Acceptor.State.{Acceptor, promise_headers, promise_of, flush_promises, synced}
use libfastpaxos.Acceptor.Prepare.{make_room, start_batch, add_promise_to_send_buffer}

-- The promises in the packets that were sent, oldest first.
abbrev pub promises_in : PaxosMsg → List PromiseMsg
promises_in (promise_batch a ps) = ps
promises_in (prepare_batch _) = []
promises_in (accept _) = []
promises_in (learner_sync _) = []
promises_in (learn _) = []
promises_in (anyval _ _) = []
promises_in (unknown_type _) = []

abbrev pub sent_promises : List Packet → List PromiseMsg
sent_promises [] = []
sent_promises (p ∷ ps) = promises_in p.msg ++ sent_promises ps

sent_promises-append :
    (ps qs : List Packet) → sent_promises (ps ++ qs) ≡ sent_promises ps ++ sent_promises qs
sent_promises-append [] qs = refl
sent_promises-append (p ∷ ps) qs =
    ap (◌++◌ (promises_in p.msg)) (sent_promises-append ps qs)
    ∙ sym (append_assoc (promises_in p.msg) (sent_promises ps) (sent_promises qs))

promises_size-append :
    (ps qs : List PromiseMsg) → promises_size (ps ++ qs) ≡ promises_size ps + promises_size qs
promises_size-append [] qs = omega arith
promises_size-append (p ∷ ps) qs = omega (arith, promises_size-append ps qs)

module _ {db : Database} where
  -- Given and not yet sent, or sent.
  abbrev pub promised : Acceptor db → List PromiseMsg
  promised st = sent_promises st.sent ++ st.send_buffer

  -- Either the buffer is not in use, or its size is that of the headers and its promises.
  abbrev pub IsMeasured : Acceptor db → Type 0
  IsMeasured st =
      ((st.send_buffer_size ≡ 0) × (st.send_buffer ≡ []))
      ⊎ (st.send_buffer_size ≡ promise_headers + promises_size st.send_buffer)

  pub record IsBounded (st : Acceptor db) : Type 0 where
    pub measured : IsMeasured st
    pub bound : st.send_buffer_size ≤ max_udp_msg_size
    pub packets : All Fits st.sent

  -- Adding a promise touches only the buffer and what is sent.
  pub add_promise-keeps :
      (st : Acceptor db) (rec : AcceptorRecord)
      → let st' = add_promise_to_send_buffer st rec in
        (st'.acceptor_array ≡ st.acceptor_array)
        × (st'.disk ≡ st.disk)
        × (st'.acceptor_id ≡ st.acceptor_id)
  unfolding add_promise_to_send_buffer disk_force_syncrony
  add_promise-keeps st rec = ground arith

  -- The buffer is in use.
  abbrev pub IsOpen : Acceptor db → Type 0
  IsOpen st = st.send_buffer_size ≡ promise_headers + promises_size st.send_buffer

  pub flush-promised : (st : Acceptor db) → promised (flush_promises (synced st)) ≡ promised st
  unfolding flush_promises
  flush-promised st = simp (sent_promises-append, append-nil)

  pub flush-IsBounded :
      (st : Acceptor db) → IsBounded st → IsOpen st → IsBounded (flush_promises (synced st))
  unfolding flush_promises
  flush-IsBounded st b o = record {
    measured = inl (refl, refl);
    bound = omega arith;
    packets = All-append Fits st.sent _ b.packets ((omega (arith, o), b.bound), tt);
  }

  -- After `make_room` the promise fits, or the buffer is not in use.
  module _ (st : Acceptor db) (rec : AcceptorRecord) where
    abbrev overfull : Bool
    overfull = ltb max_udp_msg_size (sizeof_promise_msg + rec.value_size + st.send_buffer_size)

    make_room-promised : promised (make_room st rec) ≡ promised st
    unfolding make_room
    make_room-promised = elim (Bool-cases overfull) [
      | inl e ↦ rw e (flush-promised st)
      | inr e ↦ rw e
    ]

    make_room-IsMeasured : IsMeasured st → IsMeasured (make_room st rec)
    unfolding make_room
    make_room-IsMeasured h = elim (Bool-cases overfull) [
      | inl e ↦ rw e (inl (refl, refl))
      | inr e ↦ rw e h
    ]

    make_room-IsBounded :
        IsBounded st
        → rec.value_size ≤ max_value_size
        → IsBounded (make_room st rec)
          × ((make_room st rec).send_buffer_size + (sizeof_promise_msg + rec.value_size)
              ≤ max_udp_msg_size)
    unfolding make_room
    make_room-IsBounded b h = elim (Bool-cases overfull) [
      | inl e ↦ rw e (flush-IsBounded st b (in_use b.measured e), omega arith)
      | inr e ↦ rw e (b, ground arith)
    ]
      where
        in_use : IsMeasured st → overfull ≡ true → IsOpen st
        in_use (inl (z, n)) e = absurd (ground arith)
        in_use (inr o) e = o

  start_batch-promised :
      (st : Acceptor db) → IsMeasured st → promised (start_batch st) ≡ promised st
  unfolding start_batch
  start_batch-promised st (inl (z, n)) = rw z (rw n)
  start_batch-promised st (inr o) = elim (Bool-cases (st.send_buffer_size == 0)) [
    | inl e ↦ absurd (ground arith)
    | inr e ↦ rw e
  ]

  start_batch-room :
      (st : Acceptor db) (n : ℕ)
      → n ≤ max_value_size
      → st.send_buffer_size + (sizeof_promise_msg + n) ≤ max_udp_msg_size
      → ((start_batch st).send_buffer_size + (sizeof_promise_msg + n) ≤ max_udp_msg_size)
        × ((start_batch st).sent ≡ st.sent)
  unfolding start_batch
  start_batch-room st n h room = ground arith

  start_batch-IsOpen : (st : Acceptor db) → IsMeasured st → IsOpen (start_batch st)
  unfolding start_batch
  start_batch-IsOpen st (inl (z, n)) = ground arith
  start_batch-IsOpen st (inr o) = ground arith

  -- Adding a promise adds it behind all others, whether or not the buffer is flushed.
  pub add_promise-promised :
      (st : Acceptor db) (rec : AcceptorRecord)
      → IsMeasured st
      → promised (add_promise_to_send_buffer st rec) ≡ promised st ++ (promise_of rec ∷ [])
  unfolding add_promise_to_send_buffer
  add_promise-promised st rec h =
      let room = make_room st rec in
      sym (append_assoc (sent_promises (start_batch room).sent) _ _)
      ∙ ap (λ ps. ps ++ (promise_of rec ∷ []))
          (start_batch-promised room (make_room-IsMeasured st rec h) ∙ make_room-promised st rec)

  -- The buffer stays in use, and what is sent stays in bounds.
  pub add_promise-IsOpen :
      (st : Acceptor db) (rec : AcceptorRecord)
      → IsMeasured st
      → IsOpen (add_promise_to_send_buffer st rec)
  unfolding add_promise_to_send_buffer
  add_promise-IsOpen st rec h =
      let room = make_room st rec in
      omega (
        arith,
        start_batch-IsOpen room (make_room-IsMeasured st rec h),
        promises_size-append (start_batch room).send_buffer (promise_of rec ∷ []),
      )

  -- For a record whose value is not above PAXOS_MAX_VALUE_SIZE: adding its promise keeps the send buffer
  -- within a UDP message, with the size of what it holds, and each packet that was sent as long as its
  -- message.
  pub add_promise-IsBounded :
      (st : Acceptor db) (rec : AcceptorRecord)
      → IsBounded st
      → rec.value_size ≤ max_value_size
      → IsBounded (add_promise_to_send_buffer st rec)
  unfolding add_promise_to_send_buffer
  add_promise-IsBounded st rec b h =
      let (room, fits) = make_room-IsBounded st rec b h in
      let (bound, same) = start_batch-room (make_room st rec) rec.value_size h fits in
      record {
        measured = inr (add_promise-IsOpen st rec b.measured);
        bound = bound;
        packets = rw same room.packets;
      }
