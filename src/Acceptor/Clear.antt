-- ===== src/Acceptor/Clear.antt =====
-- Without any messages, no slot of lib/acceptor.c gets an any flag; and a slot stays at an instance as
-- long as no later one comes to it.
use libfastpaxos.Base.{ℕ, ◌≡◌, refl, false, Option, none, some, update_all, if_both, if◌then◌else◌}
use libfastpaxos.Base.Int.{ℤ, ◌≤ℤ◌, eqb_ℤ, ltb_ℤ, leb_ℤ}
use libfastpaxos.Config.{get_acc_index, min_ballot}
use libfastpaxos.Message.{PrepareMsg, AcceptMsg}
use libfastpaxos.Disk.{Database, AcceptorRecord, Uninit, disk_lookup_record}
use libfastpaxos.Acceptor.State.{
  Acceptor, absent_record, or_absent, written, put_slot, send_learn_message,
}
use libfastpaxos.Acceptor.Prepare.{renewed, add_promise_to_send_buffer, handle_prepare}
use libfastpaxos.Acceptor.Accept.{accepted, taken, may_accept, accept_and_learn, handle_accept}
use libfastpaxos.Acceptor.Buffer.{add_promise-keeps}

-- An instance that takes the slot of `iid` is not later than it.
abbrev pub IsNotLater : ℤ → ℤ → Type 0
IsNotLater iid j = get_acc_index iid ≡ get_acc_index j → j ≤ℤ iid

-- A slot without an any flag, and, if it is that of `iid`, not at a later instance.
abbrev pub IsClearSlot : ℤ → ℕ → AcceptorRecord → Type 0
IsClearSlot iid k rec = (rec.any_enabled ≡ false) × (get_acc_index iid ≡ k → rec.iid ≤ℤ iid)

module _ {db : Database} (iid : ℤ) where
  pub record IsClear (st : Acceptor db) : Type 0 where
    pub slots : (k : ℕ) → IsClearSlot iid k (st.acceptor_array k)

  put-IsClear :
      (st : Acceptor db) (k : ℕ) (rec : AcceptorRecord)
      → IsClear st
      → IsClearSlot iid k rec
      → IsClear (put_slot st k rec)
  put-IsClear st k rec q e = record {
    slots = update_all (IsClearSlot iid) st.acceptor_array k rec e (λ j _. q.slots j);
  }

  added-IsClear :
      (st : Acceptor db) (rec : AcceptorRecord)
      → IsClear st
      → IsClear (add_promise_to_send_buffer (written st rec) rec)
  added-IsClear st rec q = record {
    slots = λ k. rw (add_promise-keeps (written st rec) rec).0 (q.slots k);
  }

  pub prepare-IsClear :
      (st : Acceptor db) (u : Uninit) (m : PrepareMsg)
      → IsClear st
      → IsNotLater iid m.iid
      → IsClear (handle_prepare st u m)
  unfolding handle_prepare
  prepare-IsClear st u m q near =
      let i = get_acc_index m.iid in
      let rec = st.acceptor_array i in
      let old = or_absent u m.iid (disk_lookup_record db st.disk u m.iid) in
      if_both IsClear (ltb_ℤ rec.iid m.iid) (placed (renewed rec m) ((q.slots i).0, near)) (
        if_both IsClear (eqb_ℤ m.iid rec.iid)
          (if_both IsClear (leb_ℤ m.ballot rec.ballot) q (placed (raised rec) (q.slots i)))
          (if_both IsClear (ltb_ℤ old.ballot m.ballot) (added-IsClear st (raised old) q) q))
    where
      raised : AcceptorRecord → AcceptorRecord
      raised rec = record rec { ballot = m.ballot }

      placed :
          (rec : AcceptorRecord)
          → IsClearSlot iid (get_acc_index m.iid) rec
          → IsClear
              (add_promise_to_send_buffer (written (put_slot st (get_acc_index m.iid) rec) rec) rec)
      placed rec e =
          added-IsClear (put_slot st (get_acc_index m.iid) rec) rec
            (put-IsClear st (get_acc_index m.iid) rec q e)

  learned-IsClear :
      (st : Acceptor db) (rec : AcceptorRecord) → IsClear st → IsClear (accept_and_learn st rec)
  unfolding accept_and_learn send_learn_message
  learned-IsClear st rec q = record { slots = q.slots }

  pub accept-IsClear :
      (st : Acceptor db) (u : Uninit) (m : AcceptMsg)
      → IsClear st
      → IsNotLater iid m.iid
      → IsClear (handle_accept st u m)
  unfolding handle_accept
  accept-IsClear st u m q near =
      let i = get_acc_index m.iid in
      let rec = st.acceptor_array i in
      if_both IsClear (eqb_ℤ m.iid rec.iid)
        (if_both IsClear (may_accept rec m)
          (learned-IsClear _ (taken rec m) (put-IsClear st i (taken rec m) q (refl, near))) q)
        (if_both IsClear (ltb_ℤ rec.iid m.iid)
          (if_both IsClear (leb_ℤ min_ballot m.ballot)
            (learned-IsClear _ (accepted rec m)
              (put-IsClear st i (accepted rec m) q ((q.slots i).0, near)))
            q)
          (behind (disk_lookup_record db st.disk u m.iid)))
    where
      behind :
          (o : Option AcceptorRecord)
          → IsClear (elim o [
            | none ↦
                if leb_ℤ min_ballot m.ballot
                then accept_and_learn st (accepted (absent_record u m.iid) m)
                else st
            | some old ↦ if may_accept old m then accept_and_learn st (taken old m) else st
          ])
      behind none =
          if_both IsClear (leb_ℤ min_ballot m.ballot)
            (learned-IsClear st (accepted (absent_record u m.iid) m) q) q
      behind (some old) = if_both IsClear (may_accept old m) (learned-IsClear st (taken old m) q) q
