-- ===== src/Acceptor/Enable.antt =====
-- The any messages of lib/acceptor.c, against the map of what is remembered of each instance.
use libfastpaxos.Base.{
  ℕ, ◌≡◌, ◌≢◌, refl, sym, Bool, true, false, [], Option, none, some, arith, if◌then◌else◌, update,
  Bool-cases, inl, inr, ◌⊎◌, update_self, update_ne,
}
use libfastpaxos.Base.Int.{ℤ, minus_one, ◌≤ℤ◌, ◌<ℤ◌, eqb_ℤ, ltb_ℤ, eqb→eq}
use libfastpaxos.Config.{get_acc_index}
use libfastpaxos.Disk.{Database, IsReliable, AcceptorRecord, FlatRecord, Uninit, disk_lookup_record}
use libfastpaxos.Disk.Entries.{IsIid}
use libfastpaxos.Acceptor.State.{Acceptor, written, put_slot}
use libfastpaxos.Acceptor.Anyval.{enabled, may_enable, handle_anyval}
use libfastpaxos.Acceptor.Cache.{IsCoherent, after, entry_self, entry_other, save_at, save_disk}
use libfastpaxos.Acceptor.Promise.{recall, IsReady}
use libfastpaxos.Acceptor.Vote.{holder}

-- What is remembered of an instance for which any value is accepted.
abbrev pub blank : ℤ → ℤ → FlatRecord
blank iid ballot = record {
  iid = iid;
  ballot = ballot;
  value_ballot = minus_one;
  value_size = 0;
  value = [];
}

-- A record with no value, in which any value is accepted.
abbrev pub IsOpen : ℤ → ℤ → AcceptorRecord → Type 0
IsOpen iid ballot rec =
    (rec.iid ≡ iid) × (rec.ballot ≡ ballot) × (rec.value ≡ none) × (rec.any_enabled ≡ true)

-- An acceptor that holds nothing of an instance takes any any message for it.
abbrev pub takes_any : Option AcceptorRecord → ℤ → Bool
takes_any none ballot = true
takes_any (some rec) ballot = may_enable rec ballot

module _ {db : Database} (r : IsReliable db) where
  pub record Enables (st : Acceptor db) (iid ballot : ℤ) (st' : Acceptor db) : Type 0 where
    pub ready : IsReady r st'
    pub own : recall r st' iid ≡ some (blank iid ballot)
    pub others : (j : ℤ) → IsIid j → (iid ≡ j → ⊥) → recall r st' j ≡ recall r st j
    pub silent : st'.sent ≡ st.sent

  module _ (st : Acceptor db) (iid ballot : ℤ) (h : IsIid iid) (ready : IsReady r st) where
    abbrev slot : AcceptorRecord
    slot = st.acceptor_array (get_acc_index iid)

    enables :
        (base : AcceptorRecord) (arr : ℕ → AcceptorRecord)
        → IsCoherent db arr
            (after db st.acceptor_array st.disk (enabled base iid ballot) r h ready.coherent)
        → Enables st iid ballot
            (written (record st { acceptor_array = arr }) (enabled base iid ballot))
    enables base arr c = record {
      ready = record { coherent = c; measured = ready.measured };
      own = entry_self db st.acceptor_array st.disk (enabled base iid ballot) r h ready.coherent;
      others =
          entry_other db st.acceptor_array st.disk (enabled base iid ballot) r h ready.coherent;
      silent = refl;
    }

    -- The slot of the instance is open for any value, and the other slots are as before.
    abbrev OpensSlot : Acceptor db → Type 0
    OpensSlot st' =
        IsOpen iid ballot (st'.acceptor_array (get_acc_index iid))
        × ((k : ℕ) → k ≢ get_acc_index iid → st'.acceptor_array k ≡ st.acceptor_array k)

    abbrev opened : AcceptorRecord → Acceptor db
    opened base =
        written (put_slot st (get_acc_index iid) (enabled base iid ballot))
          (enabled base iid ballot)

    Enables-slot :
        (base : AcceptorRecord)
        → slot.iid ≤ℤ iid
        → Enables st iid ballot (opened base) × OpensSlot (opened base)
    Enables-slot base le = (
      enables base (update st.acceptor_array (get_acc_index iid) (enabled base iid ballot)) (
          save_at db st.acceptor_array st.disk (enabled base iid ballot) r h ready.coherent
            (get_acc_index iid) refl le),
      (
        rw (update_self st.acceptor_array (get_acc_index iid) (enabled base iid ballot))
            (refl, refl, refl, refl),
        λ k n.
            update_ne st.acceptor_array (get_acc_index iid) k (enabled base iid ballot)
              (λ e. n (sym e)),
      ),
    )

    taken :
        (base : AcceptorRecord)
        → slot.iid ≤ℤ iid
        → (st' : Acceptor db) × (some (opened base) ≡ some st')
          × Enables st iid ballot st'
          × OpensSlot st'
    taken base le = let (e, o) = Enables-slot base le in (opened base, refl, e, o)

    Enables-disk :
        (base : AcceptorRecord)
        → iid <ℤ slot.iid
        → Enables st iid ballot (written st (enabled base iid ballot))
    Enables-disk base lt =
        enables base st.acceptor_array
          (save_disk db st.acceptor_array st.disk (enabled base iid ballot) r h ready.coherent lt)

    abbrev pub AnyOutcome : Option AcceptorRecord → Option (Acceptor db) → Type 0
    AnyOutcome o res =
        ((iid <ℤ slot.iid) × (o ≡ none) × (res ≡ none))
        ⊎ ((slot.iid ≤ℤ iid)
            × (takes_any o ballot ≡ true)
            × ((st' : Acceptor db) × (res ≡ some st') × Enables st iid ballot st' × OpensSlot st'))
        ⊎ ((iid <ℤ slot.iid)
            × ((rec : AcceptorRecord) × (o ≡ some rec) × (may_enable rec ballot ≡ true))
            × ((st' : Acceptor db) × (res ≡ some st')
                × Enables st iid ballot st'
                × (st'.acceptor_array ≡ st.acceptor_array)))
        ⊎ ((takes_any o ballot ≡ false) × (res ≡ some st))

    from_disk :
        iid <ℤ slot.iid
        → (o : Option AcceptorRecord)
        → AnyOutcome o (elim o [
          | none ↦ none
          | some old ↦
              some (if may_enable old ballot then written st (enabled old iid ballot) else st)
        ])
    from_disk lt none = inl (lt, refl, refl)
    from_disk lt (some old) = elim (Bool-cases (may_enable old ballot)) [
      | inl y ↦ inr (inr (inl (lt, (old, refl, y), rw y (_, refl, Enables-disk old lt, refl))))
      | inr n ↦ inr (inr (inr (n, rw n refl)))
    ]

    -- In a well-formed acceptor, an any message faults exactly if the slot of the instance holds a
    -- later one and no record of it is on disk. Otherwise the acceptor takes it exactly if it holds
    -- nothing of the instance, or its any flag is set, or the ballot is not below its own: then it
    -- remembers the ballot and no value, the other instances are as before, and nothing is sent; the
    -- any flag is set in the slot of the instance, beside the ballot and no value, and the other slots
    -- are as before; but if the slot holds a later instance, no slot changes, and no flag is set.
    -- If it does not take the message, nothing changes.
    pub handle_anyval-Enables :
        (u : Uninit) → AnyOutcome (holder st u iid) (handle_anyval st u ballot iid)
    unfolding handle_anyval
    handle_anyval-Enables u = elim (Bool-cases (eqb_ℤ iid slot.iid)) [
      | inl same ↦
          let p = eqb→eq iid slot.iid same in
          elim (Bool-cases (may_enable slot ballot)) [
            | inl y ↦ inr (inl (ground arith, rw same y, rw (same, y) (taken slot (ground arith))))
            | inr n ↦ inr (inr (inr (rw same n, rw (same, n) refl)))
          ]
      | inr other ↦ elim (Bool-cases (ltb_ℤ slot.iid iid)) [
        | inl new ↦
            inr (
              inl (ground arith, rw (other, new) refl, rw (other, new) (taken slot (ground arith))))
        | inr old ↦ rw (other, old) (from_disk (ground arith) (disk_lookup_record db st.disk u iid))
      ]
    ]
