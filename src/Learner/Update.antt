-- ===== src/Learner/Update.antt =====
-- `update_record` and `check_quorum` of lib/learner.c, seen from outside: which record they touch,
-- and what it holds afterwards.
use libfastpaxos.Base.{◌≡◌, refl, Bool, true, false, ◌⊎◌, inl, inr, none, arith, ◌∙◌, Bool-cases}
use libfastpaxos.Base.Int.{pos, ◌+ℤ◌, ◌≤ℤ◌, ◌<ℤ◌, leb_ℤ, eqb_ℤ, eqb→eq}
use libfastpaxos.Config.{get_lea_index}
use libfastpaxos.Message.{LearnMsg}
use libfastpaxos.Learner.{
  Learner, LearnerRecord, add_learn_to_record, clean_record, store_learn, put_record, update_record,
  is_closed,
}

-- What `add_learn_to_record` leaves is the record or the record with the message stored.
pub add_learn_to_record-cases :
    (rec : LearnerRecord) (m : LearnMsg)
    → (add_learn_to_record rec m ≡ (false, rec))
      ⊎ ((add_learn_to_record rec m ≡ (true, store_learn rec m))
          × (pos 0 ≤ℤ m.acceptor_id)
          × (m.acceptor_id <ℤ pos 3))
unfolding add_learn_to_record
add_learn_to_record-cases rec m = ground arith

-- The record that `update_record` writes, if it writes one: it is of the message's instance, which
-- lies in the window, and it is open.
pub record Stored (l : Learner) (m : LearnMsg) (r : Bool) (l' : Learner) : Type 0 where
  pub base : LearnerRecord
  pub rec : LearnerRecord
  pub late : l.highest_delivered <ℤ m.iid
  pub soon : m.iid <ℤ l.highest_delivered +ℤ pos 512
  pub from :
      ((base ≡ clean_record (l.learner_array (get_lea_index m.iid)) m.iid)
        ⊎ (base ≡ l.learner_array (get_lea_index m.iid)))
  pub base_iid : base.iid ≡ m.iid
  pub added : add_learn_to_record base m ≡ (r, rec)
  pub put : l' ≡ put_record l (get_lea_index m.iid) rec
  pub iid : rec.iid ≡ m.iid
  pub open_still : rec.final_value ≡ none

-- Storing a message leaves the instance and the value of a record alone.
add_learn-keeps :
    (rec : LearnerRecord) (m : LearnMsg)
    → ((add_learn_to_record rec m).1.iid ≡ rec.iid)
      × ((add_learn_to_record rec m).1.final_value ≡ rec.final_value)
unfolding add_learn_to_record
add_learn-keeps rec m = ground arith

module _ (l : Learner) (m : LearnMsg) where
  abbrev slot : LearnerRecord
  slot = l.learner_array (get_lea_index m.iid)

  stored :
      (base : LearnerRecord)
      → l.highest_delivered <ℤ m.iid
      → m.iid <ℤ l.highest_delivered +ℤ pos 512
      → ((base ≡ clean_record slot m.iid) ⊎ (base ≡ slot))
      → base.iid ≡ m.iid
      → base.final_value ≡ none
      → let (r, rec) = add_learn_to_record base m in
        Stored l m r (put_record l (get_lea_index m.iid) rec)
  stored base late soon from i o = record {
    base = base;
    rec = (add_learn_to_record base m).1;
    late = late;
    soon = soon;
    from = from;
    base_iid = i;
    added = refl;
    put = refl;
    iid = (add_learn-keeps base m).0 ∙ i;
    open_still = (add_learn-keeps base m).1 ∙ o;
  }

  pub update_record-cases :
      (update_record l m ≡ (false, l)) ⊎ Stored l m (update_record l m).0 (update_record l m).1
  unfolding update_record
  update_record-cases = elim (Bool-cases (leb_ℤ (l.highest_delivered +ℤ pos 512) m.iid)) [
    | inl far ↦ inl (rw far)
    | inr near ↦ elim (Bool-cases (leb_ℤ m.iid l.highest_delivered)) [
      | inl old ↦ inl (rw (near, old))
      | inr new ↦ elim (Bool-cases (eqb_ℤ slot.iid m.iid)) [
        | inl same ↦ elim (Bool-cases (is_closed slot)) [
          | inl closed ↦ inl (rw (near, new, same, closed))
          | inr open_slot ↦ inr (
              rw (near, new, same, open_slot)
                (stored slot (ground arith) (ground arith) (inr refl) (eqb→eq slot.iid m.iid same)
                  (ground arith)))
        ]
        | inr other ↦ inr (
            rw (near, new, other)
              (stored (clean_record slot m.iid) (ground arith) (ground arith) (inl refl) refl refl))
      ]
    ]
  ]
