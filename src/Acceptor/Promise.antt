-- ===== src/Acceptor/Promise.antt =====
-- `handle_prepare` of lib/acceptor.c implements the rule of Paxos, through the array, the cache, the
-- disk and the buffer.
use mathlib.Core.List.{append-nil}
use libfastpaxos.Base.{
  ℕ, ◌≡◌, refl, ◌∙◌, sym, ap, subst, true, false, List, [], ◌∷◌, ◌++◌, Option, none, some, arith,
  take, update, Bool-cases, Option-cases, inl, inr,
}
use libfastpaxos.Base.Int.{
  ℤ, minus_one, pos_part, neg_part, ◌≤ℤ◌, ◌<ℤ◌, eqb_ℤ, ltb_ℤ, leb_ℤ, eqb→eq,
}
use libfastpaxos.Config.{get_acc_index}
use libfastpaxos.Message.{PrepareMsg, PromiseMsg}
use libfastpaxos.Disk.{
  Database, IsReliable, AcceptorRecord, FlatRecord, Uninit, flatten, unflatten, disk_lookup_record,
}
use libfastpaxos.Disk.Entries.{IsIid, entry, lookup-entry}
use libfastpaxos.Acceptor.State.{Acceptor, or_absent, written, put_slot}
use libfastpaxos.Acceptor.Prepare.{renewed, add_promise_to_send_buffer, handle_prepare}
use libfastpaxos.Acceptor.Buffer.{
  promised, IsMeasured, add_promise-keeps, add_promise-promised, add_promise-IsOpen,
}
use libfastpaxos.Acceptor.Cache.{IsCoherent, after, entry_self, entry_other, save_at, save_disk}
use libfastpaxos.Acceptor.Spec.{
  ballot_of, grants, prepared, promise_flat, prepare_entry, prepare_reply,
}

module _ {db : Database} (r : IsReliable db) where
  -- What an acceptor remembers of an instance.
  abbrev pub recall : Acceptor db → ℤ → Option FlatRecord
  recall st j = entry db st.disk j

  pub record IsReady (st : Acceptor db) : Type 0 where
    pub coherent : IsCoherent db st.acceptor_array st.disk
    pub measured : IsMeasured st

  -- The answer to a prepare request: the entry of its instance and the promises follow the rule, the
  -- other entries stay, and the acceptor is ready again.
  pub record Answers (st : Acceptor db) (m : PrepareMsg) (st' : Acceptor db) : Type 0 where
    pub ready : IsReady st'
    pub own : recall st' m.iid ≡ prepare_entry (recall st m.iid) m.iid m.ballot
    pub others : (j : ℤ) → IsIid j → (m.iid ≡ j → ⊥) → recall st' j ≡ recall st j
    pub replies : promised st' ≡ promised st ++ prepare_reply (recall st m.iid) m.iid m.ballot

  -- A record whose flat form is the entry that the rule asks for.
  module _ (st : Acceptor db) (m : PrepareMsg) (rec : AcceptorRecord) (h : IsIid m.iid)
      (ready : IsReady st) (named : rec.iid ≡ m.iid)
      (granted : grants (recall st m.iid) m.ballot ≡ true)
      (right : flatten rec ≡ prepared m.iid m.ballot (recall st m.iid)) where
    abbrev saved : Acceptor db → Acceptor db
    saved st₀ = add_promise_to_send_buffer (written st₀ rec) rec

    iid_ok : IsIid rec.iid
    iid_ok = rw named h

    -- The promise of the record, whichever way its coherence is shown.
    answers :
        (arr : ℕ → AcceptorRecord)
        → IsCoherent db arr (after db st.acceptor_array st.disk rec r iid_ok ready.coherent)
        → Answers st m (saved (record st { acceptor_array = arr }))
    answers arr c = record {
      ready = record {
        coherent = rw (keeps.0, keeps.1) c;
        measured = inr (add_promise-IsOpen st₁ rec ready.measured);
      };
      own =
          ap (λ s. entry db s m.iid) keeps.1
          ∙ (ap (entry db st₁.disk) (sym named)
              ∙ (entry_self db st.acceptor_array st.disk rec r iid_ok ready.coherent
                  ∙ (ap some right ∙ own_rule)));
      others = λ j hj apart.
          ap (λ s. entry db s j) keeps.1
          ∙ entry_other db st.acceptor_array st.disk rec r iid_ok ready.coherent j hj
              (λ p. apart (sym named ∙ p));
      replies =
          add_promise-promised st₁ rec ready.measured
          ∙ ap (λ ps. promised st ++ ps) (ap (λ d. promise_flat d ∷ []) right ∙ reply_rule);
    }
      where
        st₁ : Acceptor db
        st₁ = written (record st { acceptor_array = arr }) rec

        keeps :
            let st' = add_promise_to_send_buffer st₁ rec in
            (st'.acceptor_array ≡ st₁.acceptor_array)
            × (st'.disk ≡ st₁.disk)
            × (st'.acceptor_id ≡ st₁.acceptor_id)
        keeps = add_promise-keeps st₁ rec

        own_rule :
            some (prepared m.iid m.ballot (recall st m.iid))
            ≡ prepare_entry (recall st m.iid) m.iid m.ballot
        own_rule = rw granted refl

        reply_rule :
            ◌≡◌ {A = List PromiseMsg}
              (promise_flat (prepared m.iid m.ballot (recall st m.iid)) ∷ [])
              (prepare_reply (recall st m.iid) m.iid m.ballot)
        reply_rule = rw granted refl

  -- A request that the rule refuses changes nothing.
  refuses :
      (st : Acceptor db) (m : PrepareMsg)
      → IsReady st
      → grants (recall st m.iid) m.ballot ≡ false
      → Answers st m st
  refuses st m ready refused = record {
    ready = ready;
    own = rw refused refl;
    others = λ j hj apart. refl;
    replies = rw refused (sym (append-nil (promised st)));
  }

  -- What the array and the disk say of the instance, in the three cases of the code.
  module _ (st : Acceptor db) (m : PrepareMsg) (h : IsIid m.iid) (ready : IsReady st) where
    abbrev pub slot : AcceptorRecord
    slot = st.acceptor_array (get_acc_index m.iid)

    pub new_instance : slot.iid <ℤ m.iid → recall st m.iid ≡ none
    new_instance lt = elim (Option-cases (recall st m.iid)) [
      | inl e ↦ e
      | inr (d, e) ↦ absurd (omega (arith, lt, (ready.coherent.behind m.iid d h e).0))
    ]

    pub held_instance : m.iid ≡ slot.iid → recall st m.iid ≡ some (flatten slot)
    held_instance e = elim (ready.coherent.slot (get_acc_index m.iid)) [
      | inl p ↦ absurd (omega (arith, h.0, ap pos_part (e ∙ p), ap neg_part (e ∙ p)))
      | inr (hk, at, q) ↦ ap (entry db st.disk) e ∙ q
    ]

    -- The record stands for the entry of the instance.
    abbrev StandsFor : Option FlatRecord → AcceptorRecord → Type 0
    StandsFor e old =
        (old.iid ≡ m.iid)
        × (old.ballot ≡ ballot_of e)
        × (flatten (record old { ballot = m.ballot }) ≡ prepared m.iid m.ballot e)

    old_StandsFor :
        (u : Uninit) (e : Option FlatRecord)
        → recall st m.iid ≡ e
        → StandsFor e (or_absent u m.iid (elim e [ none ↦ none | some d ↦ some (unflatten u d) ]))
    old_StandsFor u none p = (refl, refl, refl)
    old_StandsFor u (some d) p =
        let (_, name, whole) = ready.coherent.behind m.iid d h p in
        (
          name,
          refl,
          ap (λ v. record d { ballot = m.ballot; value = v })
              (ap (take d.value_size) whole ∙ whole),
        )

    -- So does the record that is read back from disk, or allocated.
    lookup_StandsFor :
        (u : Uninit)
        → StandsFor (recall st m.iid) (or_absent u m.iid (disk_lookup_record db st.disk u m.iid))
    lookup_StandsFor u =
        subst (λ o. StandsFor (recall st m.iid) (or_absent u m.iid o))
          (sym (lookup-entry db st.disk u m.iid)) (old_StandsFor u (recall st m.iid) refl)

    -- The three cases of the code.
    Answers-slot :
        (rec : AcceptorRecord)
        → rec.iid ≡ m.iid
        → grants (recall st m.iid) m.ballot ≡ true
        → flatten rec ≡ prepared m.iid m.ballot (recall st m.iid)
        → slot.iid ≤ℤ rec.iid
        → Answers st m
            (add_promise_to_send_buffer (written (put_slot st (get_acc_index m.iid) rec) rec) rec)
    Answers-slot rec named granted right le =
        answers st m rec h ready named granted right
          (update st.acceptor_array (get_acc_index m.iid) rec)
          (save_at db st.acceptor_array st.disk rec r (iid_ok st m rec h ready named granted right)
            ready.coherent (get_acc_index m.iid) (ap get_acc_index named) le)

    Answers-old :
        (old : AcceptorRecord)
        → StandsFor (recall st m.iid) old
        → m.iid <ℤ slot.iid
        → old.ballot <ℤ m.ballot
        → let rec : AcceptorRecord = record old { ballot = m.ballot } in
          Answers st m (add_promise_to_send_buffer (written st rec) rec)
    Answers-old old (named, known, right) lt higher =
        let granted : grants (recall st m.iid) m.ballot ≡ true = rw (← known) (ground arith) in
        answers st m raised h ready named granted right st.acceptor_array (
          save_disk db st.acceptor_array st.disk raised r
            (iid_ok st m raised h ready named granted right) ready.coherent
            (subst (λ x. x <ℤ (st.acceptor_array (get_acc_index x)).iid) (sym named) lt))
      where
        raised : AcceptorRecord
        raised = record old { ballot = m.ballot }

    -- `handle_prepare` answers by the rule: it promises a ballot, remembers it and sends what was
    -- accepted before exactly if the ballot is higher than any that the acceptor knows of for the
    -- instance, whether the array holds the instance, has never seen one so late, or has lost it to
    -- a later one; and nothing else that it remembers changes. The instance is one whose record
    -- number is an `int`, the ballot is not negative, and the database has no I/O error.
    pub handle_prepare-Answers :
        (u : Uninit) → minus_one <ℤ m.ballot → Answers st m (handle_prepare st u m)
    unfolding handle_prepare
    handle_prepare-Answers u b = elim (Bool-cases (ltb_ℤ slot.iid m.iid)) [
      | inl late ↦
          let e = new_instance (ground arith) in
          rw late
            (Answers-slot (renewed slot m) refl (rw e (ground arith)) (rw e refl) (ground arith))
      | inr early ↦ elim (Bool-cases (eqb_ℤ m.iid slot.iid)) [
        | inl same ↦
            let p = eqb→eq m.iid slot.iid same in
            let e = held_instance p in
            elim (Bool-cases (leb_ℤ m.ballot slot.ballot)) [
              | inl low ↦ rw (early, same, low) (refuses st m ready (rw e (ground arith)))
              | inr high ↦
                  rw (early, same, high)
                    (Answers-slot (record slot { ballot = m.ballot }) (sym p) (rw e (ground arith))
                      (rw e refl) (omega arith))
            ]
        | inr other ↦ elim (Bool-cases (ltb_ℤ (old u).ballot m.ballot)) [
          | inl high ↦
              rw (early, other, high)
                (Answers-old (old u) (lookup_StandsFor u) (ground arith) (ground arith))
          | inr low ↦
              rw (early, other, low)
                (refuses st m ready (rw (← (lookup_StandsFor u).1) (ground arith)))
        ]
      ]
    ]
      where
        old : Uninit → AcceptorRecord
        old u = or_absent u m.iid (disk_lookup_record db st.disk u m.iid)
