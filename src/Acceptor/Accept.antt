-- ===== src/Acceptor/Accept.antt =====
-- Phase 2 of lib/acceptor.c: accept requests, and learn messages for a learner that asks.
use libfastpaxos.Base.{
  ℕ, Bool, true, false, ◌||◌, ◌&&◌, List, [], ◌∷◌, none, some, if◌then◌else◌, take,
}
use libfastpaxos.Base.Int.{ℤ, ltb_ℤ, leb_ℤ, eqb_ℤ}
use libfastpaxos.Config.{get_acc_index, min_ballot}
use libfastpaxos.Message.{AcceptMsg}
use libfastpaxos.Disk.{Database, AcceptorRecord, Uninit, disk_lookup_record}
use libfastpaxos.Acceptor.State.{
  Acceptor, absent_record, synced, written, put_slot, send_learn_message,
}

-- The fields that `apply_accept` assigns.
abbrev pub accepted : AcceptorRecord → AcceptMsg → AcceptorRecord
accepted rec m = record rec {
  iid = m.iid;
  ballot = m.ballot;
  value_ballot = m.ballot;
  proposer_id = m.proposer_id;
  value = some (take m.value_size m.value);
  value_size = m.value_size;
}

-- The test by which `handle_accept` takes a value for a record that it has found.
abbrev pub may_accept : AcceptorRecord → AcceptMsg → Bool
may_accept rec m = rec.any_enabled || (leb_ℤ rec.ballot m.ballot && leb_ℤ min_ballot m.ballot)

abbrev pub taken : AcceptorRecord → AcceptMsg → AcceptorRecord
taken rec m = accepted (record rec { any_enabled = false }) m

-- NULL is the `none` of a value.
abbrev pub has_value : AcceptorRecord → Bool
has_value rec = elim rec.value [ none ↦ false | some _ ↦ true ]

module _ {db : Database} where
  -- `apply_accept`, then `send_learn_message`, of a record that is already in its place.
  unfoldable pub accept_and_learn : Acceptor db → AcceptorRecord → Acceptor db
  accept_and_learn st rec = send_learn_message (synced (written st rec)) rec

  unfoldable pub handle_accept : Acceptor db → Uninit → AcceptMsg → Acceptor db
  handle_accept st u m =
      if eqb_ℤ m.iid rec.iid
      then (if may_accept rec m
          then accept_and_learn (put_slot st i (taken rec m)) (taken rec m)
          else st)
      else if ltb_ℤ rec.iid m.iid
      then (if leb_ℤ min_ballot m.ballot
          then accept_and_learn (put_slot st i (accepted rec m)) (accepted rec m)
          else st)
      else elim (disk_lookup_record db st.disk u m.iid) [
        | none ↦
            if leb_ℤ min_ballot m.ballot
            then accept_and_learn st (accepted (absent_record u m.iid) m)
            else st
        | some old ↦ if may_accept old m then accept_and_learn st (taken old m) else st
      ]
    where
      i : ℕ
      i = get_acc_index m.iid

      rec : AcceptorRecord
      rec = st.acceptor_array i

  unfoldable pub handle_lsync : Acceptor db → Uninit → ℤ → Acceptor db
  handle_lsync st u instance_id =
      if eqb_ℤ instance_id rec.iid
      then (if has_value rec then send_learn_message st rec else st)
      else if ltb_ℤ instance_id rec.iid
      then elim (disk_lookup_record db st.disk u instance_id) [
        | some old ↦ send_learn_message st old
        | none ↦ st
      ]
      else st
    where
      rec : AcceptorRecord
      rec = st.acceptor_array (get_acc_index instance_id)

  unfoldable pub handle_batch_lsync : Acceptor db → (ℤ → Uninit) → List ℤ → Acceptor db
  handle_batch_lsync st u [] = st
  handle_batch_lsync st u (id ∷ ids) = handle_batch_lsync (handle_lsync st (u id) id) u ids
