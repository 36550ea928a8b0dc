-- ===== src/Disk/Entries.antt =====
-- The database of lib/acceptor_disk_helpers.c seen as a map from instances to flat records.
use libfastpaxos.Base.{
  ℕ, zero, suc, ◌+◌, ◌-◌, ◌^◌, ◌<◌, ◌≡◌, refl, ◌∙◌, ap, List, [], ◌∷◌, Option, none, some, arith,
  ◌==◌, if◌then◌else◌, take, Bool-cases, inl, inr,
}
use libfastpaxos.Base.Int.{ℤ, pos, negsuc, ◌+ℤ◌, ◌≤ℤ◌, ◌<ℤ◌, eqb_ℤ, eqb→eq, ne_of_eqb, eqb_refl}
use libfastpaxos.Disk.{
  Database, IsReliable, AcceptorRecord, FlatRecord, Uninit, GetResult, found, not_found, key_empty,
  get_failed, fetched, recno, flatten, unflatten, disk_update_record, disk_lookup_record,
  disk_force_syncrony,
}

-- The instances whose record number does not leave the range of `int`.
abbrev pub IsIid : ℤ → Type 0
IsIid i = (pos 0 ≤ℤ i) × (i <ℤ pos (2 ^ 31 - 1))

recno-pos : (n : ℕ) → n < 2 ^ 31 - 1 → recno (pos n) ≡ n + 1
unfolding ◌+ℤ◌
recno-pos n h = ground arith

-- Record numbers start from 1.
pub recno_positive : (i : ℤ) → IsIid i → 0 < recno i
recno_positive (pos n) h = omega (arith, recno-pos n (omega arith))
recno_positive (negsuc n) h = absurd (omega arith)

pub recno_injective : (i j : ℤ) → IsIid i → IsIid j → recno i ≡ recno j → i ≡ j
recno_injective (pos n) (pos k) h h' e =
    ap pos (omega (arith, recno-pos n (omega arith), recno-pos k (omega arith)))
recno_injective (negsuc n) j h h' e = absurd (omega arith)
recno_injective (pos n) (negsuc k) h h' e = absurd (omega arith)

-- Two instances have the same record number exactly when they are the same.
recno-eqb : (i j : ℤ) → IsIid i → IsIid j → (recno i == recno j) ≡ eqb_ℤ i j
recno-eqb i j h h' = elim (Bool-cases (eqb_ℤ i j)) [
  | inl e ↦ rw (eqb→eq i j e, eqb_refl j) (ground arith)
  | inr e ↦ rw e (
      let apart = λ (p : recno i ≡ recno j). ne_of_eqb i j e (recno_injective i j h h' p) in
      ground (arith, apart))
]

pub take-take : (n : ℕ) (xs : List ℕ) → take n (take n xs) ≡ take n xs
take-take zero xs = refl
take-take (suc n) [] = refl
take-take (suc n) (x ∷ xs) = ap (◌∷◌ x) (take-take n xs)

module _ (db : Database) where
  -- What is on disk about an instance.
  unfoldable pub entry : db.Store → ℤ → Option FlatRecord
  entry s i = fetched (db.get s (recno i))

  pub entry-created : (i : ℤ) → IsReliable db → entry db.created i ≡ none
  unfolding entry
  entry-created i r = r.created_empty (recno i)

  -- `disk_update_record` puts the flat record in its place, and nothing else changes.
  pub entry-update :
      (s : db.Store) (rec : AcceptorRecord) (j : ℤ)
      → IsReliable db
      → IsIid rec.iid
      → IsIid j
      → entry (disk_update_record db s rec).1 j
        ≡ (if eqb_ℤ rec.iid j then some (flatten rec) else entry s j)
  unfolding entry disk_update_record
  entry-update s rec j r h h' =
      let ok = r.put_returns s (recno rec.iid) (flatten rec) (recno_positive rec.iid h) in
      rw ok (
        r.get-put s (recno rec.iid) (recno j) (flatten rec) ok ∙ rw (recno-eqb rec.iid j h h') refl)

  -- `disk_lookup_record` finds what is on disk.
  pub lookup-entry :
      (s : db.Store) (u : Uninit) (i : ℤ)
      → disk_lookup_record db s u i
        ≡ (elim (entry s i) [ none ↦ none | some d ↦ some (unflatten u d) ])
  unfolding entry disk_lookup_record
  lookup-entry s u i = go (db.get s (recno i))
    where
      go :
          (r : GetResult)
          → ◌≡◌ {A = Option AcceptorRecord}
              (elim r [
                | found d ↦ some (unflatten u d)
                | not_found ↦ none
                | key_empty ↦ none
                | get_failed code ↦ none
              ])
              (elim (fetched r) [ none ↦ none | some d ↦ some (unflatten u d) ])
      go (found d) = refl
      go not_found = refl
      go key_empty = refl
      go (get_failed code) = refl

  pub force-disk : (s : db.Store) → (disk_force_syncrony db s).1 ≡ s
  unfolding disk_force_syncrony
  force-disk s = refl
