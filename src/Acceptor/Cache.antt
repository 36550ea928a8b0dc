-- ===== src/Acceptor/Cache.antt =====
-- The record array of lib/acceptor.c is a write-through cache in front of the database: a slot holds
-- what is on disk for its instance, and the disk has no later instance with the slot's index.
use libfastpaxos.Base.{
  ℕ, ◌≡◌, refl, ◌∙◌, sym, ap, subst, some, arith, take, update, update_all, update_self, Bool-cases,
  inl, inr, ◌⊎◌,
}
use mathlib.Core.Option.{some-injective}
use libfastpaxos.Base.Int.{
  ℤ, minus_one, pos_part, neg_part, ◌≤ℤ◌, ◌<ℤ◌, eqb_ℤ, eqb→eq, ne_of_eqb, eqb_refl,
}
use libfastpaxos.Config.{get_acc_index}
use libfastpaxos.Disk.{
  Database, IsReliable, AcceptorRecord, FlatRecord, bytes, flatten, disk_update_record,
}
use libfastpaxos.Disk.Entries.{IsIid, entry, entry-update, entry-created, take-take}
use libfastpaxos.Acceptor.State.{acceptor_init}

module _ (db : Database) where
  -- A slot that was never used, or one that agrees with the disk.
  abbrev pub IsSlot : db.Store → ℕ → AcceptorRecord → Type 0
  IsSlot s k rec =
      (rec.iid ≡ minus_one)
      ⊎ (IsIid rec.iid × (get_acc_index rec.iid ≡ k) × (entry db s rec.iid ≡ some (flatten rec)))

  -- An entry on disk is named by its instance, holds its value whole, and is not ahead of its slot.
  abbrev pub IsBehind : (ℕ → AcceptorRecord) → ℤ → FlatRecord → Type 0
  IsBehind arr j d =
      (j ≤ℤ (arr (get_acc_index j)).iid) × (d.iid ≡ j) × (take d.value_size d.value ≡ d.value)

  pub record IsCoherent (arr : ℕ → AcceptorRecord) (s : db.Store) : Type 0 where
    pub slot : (k : ℕ) → IsSlot s k (arr k)
    pub behind : (j : ℤ) (d : FlatRecord) → IsIid j → entry db s j ≡ some d → IsBehind arr j d

  pub init-IsCoherent :
      (id : ℤ)
      → IsReliable db
      → IsCoherent (acceptor_init {db = db} id).acceptor_array (acceptor_init {db = db} id).disk
  init-IsCoherent id r = record {
    slot = λ k. inl refl;
    behind = λ j d h e. absurd (cc (entry-created db j r));
  }

  module _ (arr : ℕ → AcceptorRecord) (s : db.Store) (rec : AcceptorRecord) (r : IsReliable db)
      (h : IsIid rec.iid) (c : IsCoherent arr s) where
    abbrev i : ℕ
    i = get_acc_index rec.iid

    abbrev pub after : db.Store
    after = (disk_update_record db s rec).1

    pub entry_self : entry db after rec.iid ≡ some (flatten rec)
    entry_self = rw (entry-update db s rec rec.iid r h h, eqb_refl rec.iid)

    pub entry_other : (j : ℤ) → IsIid j → (rec.iid ≡ j → ⊥) → entry db after j ≡ entry db s j
    entry_other j hj apart = elim (Bool-cases (eqb_ℤ rec.iid j)) [
      | inl e ↦ absurd (apart (eqb→eq rec.iid j e))
      | inr e ↦ rw (entry-update db s rec j r h hj, e)
    ]

    -- A slot of another index, or of another instance, still agrees with the disk.
    other_slot : (k : ℕ) → (rec.iid ≡ (arr k).iid → ⊥) → IsSlot after k (arr k)
    other_slot k apart = elim (c.slot k) [
      | inl e ↦ inl e
      | inr (hk, at, e) ↦ inr (hk, at, entry_other (arr k).iid hk apart ∙ e)
    ]

    -- A slot that holds the instance is the one at its index.
    own_slot : (k : ℕ) → rec.iid ≡ (arr k).iid → i ≡ k
    own_slot k p = elim (c.slot k) [
      | inl e ↦ absurd (omega (arith, h.0, ap pos_part (p ∙ e), ap neg_part (p ∙ e)))
      | inr (hk, at, e) ↦ ap get_acc_index p ∙ at
    ]

    flat_whole : take rec.value_size (flatten rec).value ≡ (flatten rec).value
    flat_whole = take-take rec.value_size (bytes rec.value)

    -- What is behind stays behind where no slot goes back.
    IsBehind-after :
        (arr' : ℕ → AcceptorRecord)
        → (rec.iid ≤ℤ (arr' i).iid)
        → ((k : ℕ) → (arr k).iid ≤ℤ (arr' k).iid)
        → (j : ℤ) (d : FlatRecord) → IsIid j
        → entry db after j ≡ some d
        → IsBehind arr' j d
    IsBehind-after arr' top up j d hj e = elim (Bool-cases (eqb_ℤ rec.iid j)) [
      | inl same ↦
          let p = eqb→eq rec.iid j same in
          let q = some-injective (flatten rec) d (sym entry_self ∙ (ap (entry db after) p ∙ e)) in
          subst (λ x. IsBehind arr' x d) p (subst (IsBehind arr' rec.iid) q (top, refl, flat_whole))
      | inr other ↦
          let (le, name, whole) =
            c.behind j d hj (sym (entry_other j hj (λ p. ne_of_eqb rec.iid j other p)) ∙ e) in
          (omega (arith, le, up (get_acc_index j)), name, whole)
    ]

    -- A record written to its slot and to disk, over an earlier instance or its own.
    save_slot :
        (arr (get_acc_index rec.iid)).iid ≤ℤ rec.iid
        → IsCoherent (update arr (get_acc_index rec.iid) rec) after
    save_slot le = record {
      slot =
          update_all (IsSlot after) arr i rec (inr (h, refl, entry_self))
            (λ k ne. other_slot k (λ p. ne (own_slot k p)));
      behind =
          IsBehind-after (update arr i rec) (rw (update_self arr i rec) (omega arith))
            (update_all (λ k x. (arr k).iid ≤ℤ x.iid) arr i rec le (λ k _. omega arith));
    }

    pub save_at :
        (k : ℕ)
        → get_acc_index rec.iid ≡ k
        → (arr k).iid ≤ℤ rec.iid
        → IsCoherent (update arr k rec) after
    save_at k e le =
        subst (λ k. IsCoherent (update arr k rec) after) e
          (save_slot (subst (λ k. (arr k).iid ≤ℤ rec.iid) (sym e) le))

    behind_its_slot :
        rec.iid <ℤ (arr (get_acc_index rec.iid)).iid → (k : ℕ) → rec.iid ≡ (arr k).iid → ⊥
    behind_its_slot lt k p =
        let q = p ∙ ap (λ n. (arr n).iid) (sym (own_slot k p)) in
        omega (arith, lt, ap pos_part q, ap neg_part q)

    -- A record written to disk only, behind its slot.
    pub save_disk : rec.iid <ℤ (arr (get_acc_index rec.iid)).iid → IsCoherent arr after
    save_disk lt = record {
      slot = λ k. other_slot k (λ p. behind_its_slot lt k p);
      behind = IsBehind-after arr (omega arith) (λ k. omega arith);
    }
