-- ===== src/Acceptor/Anyval.antt =====
-- The any messages of lib/acceptor.c, and the dispatch of the messages that an acceptor reads.
-- `none` is a fault: a write through a NULL pointer.
use libfastpaxos.Base.{ℕ, Bool, true, ◌||◌, not, List, [], ◌∷◌, Option, none, some, if◌then◌else◌}
use libfastpaxos.Base.Int.{ℤ, pos, minus_one, ◌-ℤ◌, ltb_ℤ, leb_ℤ, eqb_ℤ}
use libfastpaxos.Config.{get_acc_index}
use libfastpaxos.Message.{
  PaxosMsg, prepare_batch, accept, learner_sync, promise_batch, learn, anyval, unknown_type,
  sizeof_paxos_msg,
}
use libfastpaxos.Disk.{Database, AcceptorRecord, Uninit, disk_lookup_record}
use libfastpaxos.Acceptor.State.{Acceptor, written, put_slot}
use libfastpaxos.Acceptor.Prepare.{handle_prepare_batch}
use libfastpaxos.Acceptor.Accept.{handle_accept, handle_batch_lsync}

-- The fields that `apply_anyval` assigns.
abbrev pub enabled : AcceptorRecord → ℤ → ℤ → AcceptorRecord
enabled rec iid ballot = record rec {
  iid = iid;
  ballot = ballot;
  value_ballot = minus_one;
  proposer_id = minus_one;
  value = none;
  value_size = 0;
  any_enabled = true;
}

abbrev pub may_enable : AcceptorRecord → ℤ → Bool
may_enable rec ballot = rec.any_enabled || leb_ℤ rec.ballot ballot

module _ {db : Database} where
  -- Where no record is on disk, `apply_anyval` writes through the NULL that it is given.
  unfoldable pub handle_anyval : Acceptor db → Uninit → ℤ → ℤ → Option (Acceptor db)
  handle_anyval st u ballot iid =
      if eqb_ℤ iid rec.iid
      then some (
          if may_enable rec ballot
          then written (put_slot st i (enabled rec iid ballot)) (enabled rec iid ballot)
          else st)
      else if ltb_ℤ rec.iid iid
      then some (written (put_slot st i (enabled rec iid ballot)) (enabled rec iid ballot))
      else elim (disk_lookup_record db st.disk u iid) [
        | none ↦ none
        | some old ↦
            some (if may_enable old ballot then written st (enabled old iid ballot) else st)
      ]
    where
      i : ℕ
      i = get_acc_index iid

      rec : AcceptorRecord
      rec = st.acceptor_array i

  unfoldable pub handle_batch_anyval :
      Acceptor db → (ℤ → Uninit) → ℤ → List ℤ → Option (Acceptor db)
  handle_batch_anyval st u ballot [] = some st
  handle_batch_anyval st u ballot (id ∷ ids) = elim (handle_anyval st (u id) ballot id) [
    | none ↦ none
    | some st' ↦ handle_batch_anyval st' u ballot ids
  ]

  -- The default case only prints.
  unfoldable pub handle_message : Acceptor db → (ℤ → Uninit) → PaxosMsg → Option (Acceptor db)
  handle_message st u (prepare_batch ms) = some (handle_prepare_batch st u ms)
  handle_message st u (accept m) = some (handle_accept st (u m.iid) m)
  handle_message st u (learner_sync ids) = some (handle_batch_lsync st u ids)
  handle_message st u (anyval ballot ids) = handle_batch_anyval st u ballot ids
  handle_message st u (promise_batch _ _) = some st
  handle_message st u (learn _) = some st
  handle_message st u (unknown_type _) = some st

  -- `get_next_message` behind `recvfrom`, which returned `msg_size`; `size` is the packet's field.
  unfoldable pub get_next_message :
      Acceptor db → (ℤ → Uninit) → ℤ → ℤ → PaxosMsg → Option (Acceptor db)
  get_next_message st u msg_size size m =
      if ltb_ℤ msg_size (pos 0)
      then some st
      else if not (eqb_ℤ size (msg_size -ℤ pos sizeof_paxos_msg))
      then some st
      else handle_message st u m
