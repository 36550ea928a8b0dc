-- ===== src/Acceptor/Prepare.antt =====
-- Phase 1 of lib/acceptor.c: prepare requests and the batch of promises that answers them.
use libfastpaxos.Base.{ℕ, ◌+◌, List, [], ◌∷◌, ◌++◌, none, ltb, ◌==◌, if◌then◌else◌, length}
use libfastpaxos.Base.Int.{ℤ, minus_one, ltb_ℤ, leb_ℤ, eqb_ℤ}
use libfastpaxos.Config.{get_acc_index, max_udp_msg_size}
use libfastpaxos.Message.{PrepareMsg, sizeof_promise_msg}
use libfastpaxos.Disk.{Database, AcceptorRecord, Uninit, disk_lookup_record}
use libfastpaxos.Acceptor.State.{
  Acceptor, promise_headers, promise_of, or_absent, synced, written, put_slot, flush_promises,
}

-- A record of a new instance, in the slot of an old one.
abbrev pub renewed : AcceptorRecord → PrepareMsg → AcceptorRecord
renewed rec m = record rec {
  iid = m.iid;
  ballot = m.ballot;
  value_ballot = minus_one;
  value_size = 0;
  value = none;
}

module _ {db : Database} where
  -- Flushes the buffer if the promise would not fit in.
  unfoldable pub make_room : Acceptor db → AcceptorRecord → Acceptor db
  unfolding flush_promises
  make_room st rec =
      if ltb max_udp_msg_size (sizeof_promise_msg + rec.value_size + st.send_buffer_size)
      then flush_promises (synced st)
      else st

  unfoldable pub start_batch : Acceptor db → Acceptor db
  start_batch st =
      if st.send_buffer_size == 0
      then record st { send_buffer = []; send_buffer_size = promise_headers }
      else st

  -- After a flush the promise is written without a look at its size: above PAXOS_MAX_VALUE_SIZE it may
  -- not fit in the buffer of MAX_UDP_MSG_SIZE bytes, which is not bounded here.
  unfoldable pub add_promise_to_send_buffer : Acceptor db → AcceptorRecord → Acceptor db
  unfolding make_room start_batch
  add_promise_to_send_buffer st rec =
      let st' = start_batch (make_room st rec) in
      record st' {
        send_buffer = st'.send_buffer ++ (promise_of rec ∷ []);
        send_buffer_size = st'.send_buffer_size + (sizeof_promise_msg + rec.value_size);
      }

  unfoldable pub handle_prepare : Acceptor db → Uninit → PrepareMsg → Acceptor db
  handle_prepare st u m =
      if ltb_ℤ rec.iid m.iid
      then add_promise_to_send_buffer (written (put_slot st i (renewed rec m)) (renewed rec m))
          (renewed rec m)
      else if eqb_ℤ m.iid rec.iid
      then (if leb_ℤ m.ballot rec.ballot
          then st
          else add_promise_to_send_buffer (written (put_slot st i raised) raised) raised)
      else (if ltb_ℤ old.ballot m.ballot
          then add_promise_to_send_buffer (written st old_raised) old_raised
          else st)
    where
      i : ℕ
      i = get_acc_index m.iid

      rec : AcceptorRecord
      rec = st.acceptor_array i

      raised : AcceptorRecord
      raised = record rec { ballot = m.ballot }

      old : AcceptorRecord
      old = or_absent u m.iid (disk_lookup_record db st.disk u m.iid)

      old_raised : AcceptorRecord
      old_raised = record old { ballot = m.ballot }

  -- The loop over the entries of a batch; `u` is what `malloc` finds, by instance.
  unfoldable pub prepare_all : Acceptor db → (ℤ → Uninit) → List PrepareMsg → Acceptor db
  prepare_all st u [] = st
  prepare_all st u (m ∷ ms) = prepare_all (handle_prepare st (u m.iid) m) u ms

  unfoldable pub handle_prepare_batch : Acceptor db → (ℤ → Uninit) → List PrepareMsg → Acceptor db
  handle_prepare_batch st u ms =
      let st' =
        prepare_all (record st { send_buffer = []; send_buffer_size = promise_headers }) u ms in
      if ltb 0 (length st'.send_buffer) then flush_promises (synced st') else st'
