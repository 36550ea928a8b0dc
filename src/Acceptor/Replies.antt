-- ===== src/Acceptor/Replies.antt =====
-- What the packets of an acceptor have in common is not disturbed by its promises.
use libfastpaxos.Base.{ℕ, ◌≡◌, refl, List, [], All, All-append, if_both, ◌==◌}
use libfastpaxos.Base.Int.{ℤ, eqb_ℤ, ltb_ℤ, leb_ℤ}
use libfastpaxos.Config.{get_acc_index}
use libfastpaxos.Message.{PrepareMsg, PromiseMsg, promise_batch, Packet, proposers_net}
use libfastpaxos.Disk.{Database, AcceptorRecord, Uninit, disk_lookup_record}
use libfastpaxos.Acceptor.State.{
  Acceptor, synced, or_absent, promise_headers, written, put_slot, flush_promises,
}
use libfastpaxos.Acceptor.Prepare.{
  renewed, make_room, start_batch, add_promise_to_send_buffer, handle_prepare,
}

-- Promises, sent in a batch, are of no concern to `P`.
module _ {db : Database} (P : Packet → Type 0)
    (batches : (id : ℤ) (ps : List PromiseMsg) (n : ℕ)
      → P (record { net = proposers_net; msg = promise_batch id ps; size = n })) where
  record Sent (st : Acceptor db) : Type 0 where
    all : All P st.sent

  same_sent : (st st' : Acceptor db) → st'.sent ≡ st.sent → Sent st → Sent st'
  same_sent st st' e h = record { all = rw e h.all }

  flush-Sent : (st : Acceptor db) → Sent st → Sent (flush_promises (synced st))
  unfolding flush_promises
  flush-Sent st h = record { all = All-append P st.sent _ h.all (batches _ _ _, tt) }

  make_room-Sent : (st : Acceptor db) (rec : AcceptorRecord) → Sent st → Sent (make_room st rec)
  unfolding make_room
  make_room-Sent st rec h = if_both Sent _ (flush-Sent st h) h

  start_batch-Sent : (st : Acceptor db) → Sent st → Sent (start_batch st)
  unfolding start_batch
  start_batch-Sent st h =
      if_both Sent (st.send_buffer_size == 0)
        (same_sent st (record st { send_buffer = []; send_buffer_size = promise_headers }) refl h) h

  add_promise-Sent :
      (st : Acceptor db) (rec : AcceptorRecord) → Sent st → Sent (add_promise_to_send_buffer st rec)
  unfolding add_promise_to_send_buffer
  add_promise-Sent st rec h =
      let h' = start_batch-Sent (make_room st rec) (make_room-Sent st rec h) in
      record { all = h'.all }

  prepare-Sent :
      (st : Acceptor db) (u : Uninit) (m : PrepareMsg) → Sent st → Sent (handle_prepare st u m)
  unfolding handle_prepare
  prepare-Sent st u m h =
      let i = get_acc_index m.iid in
      let rec = st.acceptor_array i in
      let old = or_absent u m.iid (disk_lookup_record db st.disk u m.iid) in
      if_both Sent (ltb_ℤ rec.iid m.iid)
        (added (put_slot st i (renewed rec m)) (renewed rec m) refl)
        (if_both Sent (eqb_ℤ m.iid rec.iid)
          (if_both Sent (leb_ℤ m.ballot rec.ballot) h
            (added (put_slot st i (raised rec)) (raised rec) refl))
          (if_both Sent (ltb_ℤ old.ballot m.ballot) (added st (raised old) refl) h))
    where
      raised : AcceptorRecord → AcceptorRecord
      raised rec = record rec { ballot = m.ballot }

      added :
          (st₁ : Acceptor db) (rec : AcceptorRecord)
          → st₁.sent ≡ st.sent
          → Sent (add_promise_to_send_buffer (written st₁ rec) rec)
      added st₁ rec e = add_promise-Sent (written st₁ rec) rec (same_sent st (written st₁ rec) e h)

  pub handle_prepare-sent :
      (st : Acceptor db) (u : Uninit) (m : PrepareMsg)
      → All P st.sent
      → All P (handle_prepare st u m).sent
  handle_prepare-sent st u m h = (prepare-Sent st u m (record { all = h })).all
