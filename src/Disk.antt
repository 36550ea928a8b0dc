-- ===== src/Disk.antt =====
-- lib/acceptor_disk_helpers.c: the acceptor's records on disk, in a Berkeley DB database whose key
-- is the instance plus one. The database is a parameter.
pub mod Entries
use libfastpaxos.Base.{
  ℕ, ◌<◌, ◌≡◌, Bool, not, List, [], Option, none, some, ◌==◌, if◌then◌else◌, take,
}
use libfastpaxos.Base.Int.{ℤ, pos, minus_one, ◌+ℤ◌, eqb_ℤ, word32}
use libfastpaxos.Config.{force_disk_flush}

-- `acceptor_record`, with `none` for a NULL value; `any_enabled` is read as a flag.
pub record AcceptorRecord : Type 0 where
  pub iid : ℤ
  pub proposer_id : ℤ
  pub ballot : ℤ
  pub value_ballot : ℤ
  pub value_size : ℕ
  pub any_enabled : Bool
  pub value : Option (List ℕ)

-- The fields of the flat record that `disk_update_record` writes; the value follows the structure.
pub record FlatRecord : Type 0 where
  pub iid : ℤ
  pub ballot : ℤ
  pub value_ballot : ℤ
  pub value_size : ℕ
  pub value : List ℕ

-- What `malloc` leaves in the two fields of a new record that nothing assigns.
pub record Uninit : Type 0 where
  pub proposer_id : ℤ
  pub any_enabled : Bool

-- The returns of `DB->get`: the record, DB_NOTFOUND, DB_KEYEMPTY, or an error code.
pub data GetResult : Type 0 where
  found : FlatRecord → GetResult
  not_found : GetResult
  key_empty : GetResult
  get_failed : ℤ → GetResult

-- Berkeley DB, as far as the helpers call it. `put` and `sync` return their code first.
pub record Database : Type 1 where
  pub Store : Type 0
  pub created : Store
  pub put : Store → ℕ → FlatRecord → ℤ × Store
  pub get : Store → ℕ → GetResult
  pub sync : Store → ℤ × Store

abbrev pub fetched : GetResult → Option FlatRecord
fetched (found d) = some d
fetched not_found = none
fetched key_empty = none
fetched (get_failed code) = none

-- A database with no I/O error: a new one is empty, a record number from 1 on can be written, and a
-- write is read back under its key and changes no other key.
pub record IsReliable (db : Database) : Type 0 where
  pub created_empty : (k : ℕ) → fetched (db.get db.created k) ≡ none
  pub put_returns : (s : db.Store) (k : ℕ) (d : FlatRecord) → 0 < k → (db.put s k d).0 ≡ pos 0
  pub get-put :
      (s : db.Store) (k j : ℕ) (d : FlatRecord)
      → (db.put s k d).0 ≡ pos 0
      → fetched (db.get (db.put s k d).1 j) ≡ (if k == j then some d else fetched (db.get s j))

abbrev pub bytes : Option (List ℕ) → List ℕ
bytes none = []
bytes (some v) = v

-- `db_recno_t` has 32 bits and no sign.
abbrev pub recno : ℤ → ℕ
recno iid = word32 (iid +ℤ pos 1)

abbrev pub flatten : AcceptorRecord → FlatRecord
flatten rec = record {
  iid = rec.iid;
  ballot = rec.ballot;
  value_ballot = rec.value_ballot;
  value_size = rec.value_size;
  value = take rec.value_size (bytes rec.value);
}

-- The record that `disk_lookup_record` allocates for what it found.
abbrev pub unflatten : Uninit → FlatRecord → AcceptorRecord
unflatten u d = record {
  iid = d.iid;
  proposer_id = u.proposer_id;
  ballot = d.ballot;
  value_ballot = d.value_ballot;
  value_size = d.value_size;
  any_enabled = u.any_enabled;
  value = some (take d.value_size d.value);
}

module _ (db : Database) where
  open db use {Store, put, get, sync}

  unfoldable pub disk_force_syncrony : Store → ℤ × Store
  disk_force_syncrony s = if force_disk_flush then sync s else (pos 0, s)

  unfoldable pub disk_update_record : Store → AcceptorRecord → ℤ × Store
  disk_update_record s rec =
      let (ret, s') = put s (recno rec.iid) (flatten rec) in
      if not (eqb_ℤ ret (pos 0))
      then (minus_one, s')
      else if force_disk_flush
      then (ret, (sync s').1)
      else (ret, s')

  unfoldable pub disk_lookup_record : Store → Uninit → ℤ → Option AcceptorRecord
  disk_lookup_record s u instance_id = elim (get s (recno instance_id)) [
    | found d ↦ some (unflatten u d)
    | not_found ↦ none
    | key_empty ↦ none
    | get_failed code ↦ none
  ]

  unfoldable pub disk_lookup_ballot : Store → ℤ → ℤ
  disk_lookup_ballot s instance_id = elim (get s (recno instance_id)) [
    | found d ↦ d.ballot
    | not_found ↦ pos 0
    | key_empty ↦ pos 0
    | get_failed code ↦ minus_one
  ]
