-- ===== src/Acceptor/Vote.antt =====
-- `handle_accept` of lib/acceptor.c: when an acceptor votes, and what it then remembers and sends.
use libfastpaxos.Base.{
  ℕ, ◌≡◌, refl, ◌∙◌, ap, Bool, true, false, [], ◌∷◌, ◌++◌, Option, none, some, arith, if◌then◌else◌,
  take, update, Bool-cases, inl, inr, ◌⊎◌,
}
use libfastpaxos.Base.Int.{ℤ, ◌≤ℤ◌, ◌<ℤ◌, eqb_ℤ, ltb_ℤ, leb_ℤ, eqb→eq}
use libfastpaxos.Config.{get_acc_index, min_ballot}
use libfastpaxos.Message.{AcceptMsg}
use libfastpaxos.Disk.{
  Database, IsReliable, AcceptorRecord, Uninit, disk_lookup_record, disk_force_syncrony,
}
use libfastpaxos.Disk.Entries.{IsIid, take-take}
use libfastpaxos.Acceptor.State.{Acceptor, absent_record, put_slot, send_learn_message}
use libfastpaxos.Acceptor.Accept.{accepted, taken, may_accept, accept_and_learn, handle_accept}
use libfastpaxos.Acceptor.Cache.{IsCoherent, after, entry_self, entry_other, save_at, save_disk}
use libfastpaxos.Acceptor.Spec.{voted, vote_with, vote_packet}
use libfastpaxos.Acceptor.Promise.{recall, IsReady}

-- A vote needs the any flag, or a leader's ballot that is not below the one promised.
abbrev pub allows : Option AcceptorRecord → AcceptMsg → Bool
allows none m = leb_ℤ min_ballot m.ballot
allows (some rec) m = may_accept rec m

module _ {db : Database} where
  -- The record that the acceptor finds for an instance: in the array, on disk, or none.
  abbrev pub holder : Acceptor db → Uninit → ℤ → Option AcceptorRecord
  holder st u iid =
      if eqb_ℤ iid (st.acceptor_array (get_acc_index iid)).iid
      then some (st.acceptor_array (get_acc_index iid))
      else if ltb_ℤ (st.acceptor_array (get_acc_index iid)).iid iid
      then none
      else disk_lookup_record db st.disk u iid

module _ {db : Database} (r : IsReliable db) where
  -- A vote: it is on disk and in its slot, the learners are told, and nothing else changes.
  pub record Votes (st : Acceptor db) (m : AcceptMsg) (st' : Acceptor db) : Type 0 where
    pub ready : IsReady r st'
    pub own : recall r st' m.iid ≡ some (voted m)
    pub others : (j : ℤ) → IsIid j → (m.iid ≡ j → ⊥) → recall r st' j ≡ recall r st j
    pub told : st'.sent ≡ st.sent ++ (vote_packet st.acceptor_id m ∷ [])

  module _ (st : Acceptor db) (m : AcceptMsg) (h : IsIid m.iid) (ready : IsReady r st) where
    abbrev slot : AcceptorRecord
    slot = st.acceptor_array (get_acc_index m.iid)

    votes :
        (base : AcceptorRecord) (arr : ℕ → AcceptorRecord)
        → IsCoherent db arr
            (after db st.acceptor_array st.disk (accepted base m) r h ready.coherent)
        → Votes st m (accept_and_learn (record st { acceptor_array = arr }) (accepted base m))
    unfolding accept_and_learn send_learn_message disk_force_syncrony
    votes base arr c = record {
      ready = record { coherent = c; measured = inl (refl, refl) };
      own =
          entry_self db st.acceptor_array st.disk (accepted base m) r h ready.coherent
          ∙ ap (λ v. some (record (voted m) { value = v })) whole;
      others = entry_other db st.acceptor_array st.disk (accepted base m) r h ready.coherent;
      told = ap (λ v. st.sent ++ (vote_with st.acceptor_id m v ∷ [])) whole;
    }
      where
        whole : take m.value_size (take m.value_size m.value) ≡ take m.value_size m.value
        whole = take-take m.value_size m.value

    votes_slot :
        (base : AcceptorRecord)
        → slot.iid ≤ℤ m.iid
        → Votes st m (
            accept_and_learn
              (put_slot st (get_acc_index m.iid) (accepted base m))
              (accepted base m))
    votes_slot base le =
        votes base (update st.acceptor_array (get_acc_index m.iid) (accepted base m)) (
          save_at db st.acceptor_array st.disk (accepted base m) r h ready.coherent
            (get_acc_index m.iid) refl le)

    votes_disk :
        (base : AcceptorRecord)
        → m.iid <ℤ slot.iid
        → Votes st m (accept_and_learn st (accepted base m))
    votes_disk base lt =
        votes base st.acceptor_array
          (save_disk db st.acceptor_array st.disk (accepted base m) r h ready.coherent lt)

    abbrev pub Outcome : Option AcceptorRecord → Acceptor db → Type 0
    Outcome o st' = ((allows o m ≡ true) × Votes st m st') ⊎ ((allows o m ≡ false) × (st' ≡ st))

    from_disk :
        (u : Uninit)
        → m.iid <ℤ slot.iid
        → (o : Option AcceptorRecord)
        → Outcome o (elim o [
          | none ↦
              if leb_ℤ min_ballot m.ballot
              then accept_and_learn st (accepted (absent_record u m.iid) m)
              else st
          | some old ↦ if may_accept old m then accept_and_learn st (taken old m) else st
        ])
    from_disk u lt none = elim (Bool-cases (leb_ℤ min_ballot m.ballot)) [
      | inl y ↦ inl (y, rw y (votes_disk (absent_record u m.iid) lt))
      | inr n ↦ inr (n, rw n refl)
    ]
    from_disk u lt (some old) = elim (Bool-cases (may_accept old m)) [
      | inl y ↦ inl (y, rw y (votes_disk (record old { any_enabled = false }) lt))
      | inr n ↦ inr (n, rw n refl)
    ]

    -- `handle_accept` votes exactly if what it holds of the instance allows it: the any flag is set,
    -- or the ballot is a leader's and not below the one promised; then the vote is on disk, and the
    -- learners are told of this very value and ballot. Otherwise nothing at all changes.
    pub handle_accept-Votes : (u : Uninit) → Outcome (holder st u m.iid) (handle_accept st u m)
    unfolding handle_accept
    handle_accept-Votes u = elim (Bool-cases (eqb_ℤ m.iid slot.iid)) [
      | inl same ↦
          let p = eqb→eq m.iid slot.iid same in
          elim (Bool-cases (may_accept slot m)) [
            | inl y ↦ inl (
              rw same y,
              rw (same, y) (votes_slot (record slot { any_enabled = false }) (ground arith)),
            )
            | inr n ↦ inr (rw same n, rw (same, n) refl)
          ]
      | inr other ↦ elim (Bool-cases (ltb_ℤ slot.iid m.iid)) [
        | inl new ↦ elim (Bool-cases (leb_ℤ min_ballot m.ballot)) [
          | inl y ↦ inl (rw (other, new) y, rw (other, new, y) (votes_slot slot (ground arith)))
          | inr n ↦ inr (rw (other, new) n, rw (other, new, n) refl)
        ]
        | inr old ↦
            rw (other, old) (from_disk u (ground arith) (disk_lookup_record db st.disk u m.iid))
      ]
    ]
