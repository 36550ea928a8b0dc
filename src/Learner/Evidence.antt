-- ===== src/Learner/Evidence.antt =====
-- What stands behind a value of a record of lib/learner.c: learn messages of a quorum of acceptors,
-- all of one ballot. `Heard` is any property of the learn messages that reach the learner, such as
-- that an acceptor has sent them.
use mathlib.Core.Option.{some-injective}
use libfastpaxos.Base.{
  ℕ, ◌≤◌, ◌≡◌, ◌∙◌, sym, ap, subst, Bool, ◌⊎◌, inl, inr, List, Option, some, arith, update_all, All,
}
use libfastpaxos.Base.Int.{ℤ, pos, ◌≤ℤ◌, pos_part, sign_parts, eq_of_parts}
use libfastpaxos.Config.{get_lea_index, quorum}
use libfastpaxos.Message.{LearnMsg}
use libfastpaxos.Learner.{
  Learner, LearnerRecord, Delivery, put_record, count_learns, copy_learn, clean_record,
  add_learn_to_record,
}
use libfastpaxos.Learner.Update.{Stored, add_learn_to_record-cases}

-- What a record would deliver.
abbrev pub pending : LearnerRecord → ℤ → List ℕ → Delivery
pending rec iid v = record {
  value = v;
  size = rec.final_value_size;
  iid = iid;
  ballot = rec.ballot;
  proposer_id = rec.proposer_id;
}

module _ (Heard : LearnMsg → Type 0) where
  -- A slot of `learns` holds a message for the instance `iid` from the acceptor of that slot.
  abbrev pub IsVote : ℤ → ℕ → Option LearnMsg → Type 0
  IsVote iid a slot =
      (m : LearnMsg) → slot ≡ some m → Heard m × (m.iid ≡ iid) × (m.acceptor_id ≡ pos a)

  -- A value to deliver is that of a learn message, and a quorum of acceptors sent learn messages for
  -- the instance with the ballot of that message.
  pub record Backed (d : Delivery) : Type 0 where
    pub msg : LearnMsg
    pub heard : Heard msg
    pub msg_iid : msg.iid ≡ d.iid
    pub msg_ballot : msg.ballot ≡ d.ballot
    pub msg_proposer : msg.proposer_id ≡ d.proposer_id
    pub msg_value : msg.value ≡ d.value
    pub msg_size : pos msg.value_size ≡ d.size
    pub votes : ℕ → Option LearnMsg
    pub cast : (a : ℕ) → IsVote d.iid a (votes a)
    pub enough : quorum ≤ count_learns votes d.ballot

  pub record IsHonest (rec : LearnerRecord) : Type 0 where
    pub stored : (a : ℕ) → IsVote rec.iid a (rec.learns a)
    pub backed : (v : List ℕ) → rec.final_value ≡ some v → Backed (pending rec rec.iid v)

  pub record IsSound (l : Learner) : Type 0 where
    pub records : (k : ℕ) → IsHonest (l.learner_array k)
    pub log : All Backed l.delivered

  pub put-IsSound :
      (l : Learner) (i : ℕ) (rec : LearnerRecord)
      → IsSound l
      → IsHonest rec
      → IsSound (put_record l i rec)
  put-IsSound l i rec s h = record {
    records = update_all (λ k r. IsHonest r) l.learner_array i rec h (λ k _. s.records k);
    log = s.log;
  }

  new-IsVote :
      (iid : ℤ) (m : LearnMsg)
      → iid ≡ m.iid
      → Heard (copy_learn m)
      → pos 0 ≤ℤ m.acceptor_id
      → IsVote iid (pos_part m.acceptor_id) (some (copy_learn m))
  new-IsVote iid m same heard low x p =
      subst (λ y. Heard y × (y.iid ≡ iid) × (y.acceptor_id ≡ pos (pos_part m.acceptor_id)))
        (some-injective _ _ p)
        (
          heard,
          sym same,
          eq_of_parts m.acceptor_id (pos (pos_part m.acceptor_id))
              (omega (arith, sign_parts m.acceptor_id)),
        )

  -- Storing a learn message of the record's own instance.
  add-IsHonest :
      (rec rec' : LearnerRecord) (m : LearnMsg) (r : Bool)
      → ((a : ℕ) → IsVote rec.iid a (rec.learns a))
      → rec.iid ≡ m.iid
      → Heard (copy_learn m)
      → add_learn_to_record rec m ≡ (r, rec')
      → (a : ℕ) → IsVote rec'.iid a (rec'.learns a)
  add-IsHonest rec rec' m r old same heard e = elim (add_learn_to_record-cases rec m) [
    | inl kept ↦
        subst (λ x. (a : ℕ) → IsVote x.iid a (x.learns a)) (ap (λ p. p.1) (sym kept ∙ e)) old
    | inr (added, low, high) ↦
        subst (λ x. (a : ℕ) → IsVote x.iid a (x.learns a)) (ap (λ p. p.1) (sym added ∙ e))
          (update_all (IsVote rec.iid) rec.learns (pos_part m.acceptor_id) (some (copy_learn m))
            (new-IsVote rec.iid m same heard low) (λ a _. old a))
  ]

  pub Stored-IsHonest :
      (l : Learner) (m : LearnMsg) (r : Bool) (l' : Learner)
      → IsSound l
      → Heard (copy_learn m)
      → (st : Stored l m r l') → IsHonest st.rec
  Stored-IsHonest l m r l' s heard st = record {
    stored = add-IsHonest st.base st.rec m r (before st.from) st.base_iid heard st.added;
    backed = λ v e. absurd (cc (st.open_still, e));
  }
    where
      slot : LearnerRecord
      slot = l.learner_array (get_lea_index m.iid)

      before :
          ((st.base ≡ clean_record slot m.iid) ⊎ (st.base ≡ slot))
          → (a : ℕ) → IsVote st.base.iid a (st.base.learns a)
      before (inl e) =
          subst (λ b. (a : ℕ) → IsVote b.iid a (b.learns a)) (sym e) (λ a x p. absurd (cc))
      before (inr e) =
          subst (λ b. (a : ℕ) → IsVote b.iid a (b.learns a)) (sym e)
            (s.records (get_lea_index m.iid)).stored
