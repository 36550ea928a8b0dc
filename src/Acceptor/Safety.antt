-- ===== src/Acceptor/Safety.antt =====
-- What a promise of lib/acceptor.c is worth: no vote below it, unless the any flag is set.
use libfastpaxos.Base.{
  ◌≡◌, refl, ◌∙◌, sym, ap, Bool, true, false, Option, none, some, arith, Bool-cases, inl, inr,
}
use libfastpaxos.Base.Int.{ℤ, pos, minus_one, ◌<ℤ◌, eqb_ℤ, ltb_ℤ, eqb→eq}
use libfastpaxos.Config.{get_acc_index}
use libfastpaxos.Message.{PrepareMsg, AcceptMsg}
use libfastpaxos.Disk.{Database, IsReliable, AcceptorRecord, FlatRecord, Uninit, unflatten}
use libfastpaxos.Disk.Entries.{IsIid, lookup-entry}
use libfastpaxos.Acceptor.State.{Acceptor}
use libfastpaxos.Acceptor.Prepare.{handle_prepare}
use libfastpaxos.Acceptor.Accept.{handle_accept, may_accept}
use libfastpaxos.Acceptor.Spec.{ballot_of, grants, prepared}
use libfastpaxos.Acceptor.Promise.{
  recall, IsReady, Answers, held_instance, new_instance, handle_prepare-Answers,
}
use libfastpaxos.Acceptor.Vote.{holder, allows, handle_accept-Votes}

-- What the found record says of the ballot is what the acceptor remembers.
abbrev pub Known : Option AcceptorRecord → Option FlatRecord → Type 0
Known none e = e ≡ none
Known (some rec) e = ballot_of e ≡ rec.ballot

-- The any flag of the found record.
abbrev pub flag_of : Option AcceptorRecord → Bool
flag_of none = false
flag_of (some rec) = rec.any_enabled

no_vote :
    (rec : AcceptorRecord) (a : AcceptMsg)
    → rec.any_enabled ≡ false
    → a.ballot <ℤ rec.ballot
    → may_accept rec a ≡ true
    → ⊥
no_vote rec a f low y = ground arith

module _ {db : Database} (r : IsReliable db) where
  pub holder-Known :
      (st : Acceptor db) (u : Uninit) (iid : ℤ)
      → IsIid iid
      → IsReady r st
      → Known (holder st u iid) (recall r st iid)
  holder-Known st u iid h ready = elim (Bool-cases (eqb_ℤ iid slot.iid)) [
    | inl same ↦
        rw same (ap ballot_of (held_instance r st request h ready (eqb→eq iid slot.iid same)))
    | inr other ↦ elim (Bool-cases (ltb_ℤ slot.iid iid)) [
      | inl new ↦ rw (other, new) (new_instance r st request h ready (ground arith))
      | inr old ↦ rw (other, old, lookup-entry db st.disk u iid) (from_disk (recall r st iid))
    ]
  ]
    where
      slot : AcceptorRecord
      slot = st.acceptor_array (get_acc_index iid)

      request : PrepareMsg
      request = record { iid = iid; ballot = pos 0 }

      from_disk :
          (e : Option FlatRecord) → Known (elim e [ none ↦ none | some d ↦ some (unflatten u d) ]) e
      from_disk none = refl
      from_disk (some d) = refl

  -- In a well-formed acceptor over a database with no I/O error, once a ballot that is not negative
  -- is promised for an instance, an accept request for it with a lower ballot that comes next is
  -- ignored, with no change at all, if the any flag of the instance is not set.
  pub promise_respected :
      (st : Acceptor db) (m : PrepareMsg) (a : AcceptMsg) (u u' : Uninit)
      → IsIid m.iid
      → IsReady r st
      → minus_one <ℤ m.ballot
      → grants (recall r st m.iid) m.ballot ≡ true
      → a.iid ≡ m.iid
      → a.ballot <ℤ m.ballot
      → flag_of (holder (handle_prepare st u m) u' a.iid) ≡ false
      → handle_accept (handle_prepare st u m) u' a ≡ handle_prepare st u m
  promise_respected st m a u u' h ready b g same low flag =
      elim (handle_accept-Votes r st' a ha ans.ready u') [
        | inr (_, e) ↦ e
        | inl (yes_vote, _) ↦
            absurd
              (refused (holder st' u' a.iid) (holder-Known st' u' a.iid ha ans.ready) flag yes_vote)
      ]
    where
      st' : Acceptor db
      st' = handle_prepare st u m

      ans : Answers r st m st'
      ans = handle_prepare-Answers r st m h ready u b

      ha : IsIid a.iid
      ha = rw same h

      known : recall r st' a.iid ≡ some (prepared m.iid m.ballot (recall r st m.iid))
      known = ap (recall r st') same ∙ (ans.own ∙ rw g refl)

      ballot : (e : Option FlatRecord) → ballot_of (some (prepared m.iid m.ballot e)) ≡ m.ballot
      ballot none = refl
      ballot (some d) = refl

      refused :
          (o : Option AcceptorRecord)
          → Known o (recall r st' a.iid)
          → flag_of o ≡ false
          → allows o a ≡ true
          → ⊥
      refused none k f y = cc (k, known)
      refused (some rec) k f y =
          let e = sym k ∙ (ap ballot_of known ∙ ballot (recall r st m.iid)) in
          no_vote rec a f (rw e low) y
