-- ===== src/Acceptor/Firm.antt =====
-- What an acceptor (lib/acceptor.c) holds by once it has promised a ballot, handler by handler.
use libfastpaxos.Base.{
  ◌≡◌, refl, sym, ap, subst, true, false, Option, none, some, arith, Bool-cases, inl, inr, ◌⊎◌, All,
  All-append,
}
use libfastpaxos.Base.Int.{ℤ, minus_one, ◌≤ℤ◌, ◌<ℤ◌, eqb_ℤ, ltb_ℤ, eqb→eq, ne_of_eqb}
use libfastpaxos.Config.{get_acc_index}
use libfastpaxos.Message.{PrepareMsg, AcceptMsg, PaxosMsg, learn, anyval, Packet}
use libfastpaxos.Disk.{Database, IsReliable, AcceptorRecord, FlatRecord, Uninit}
use libfastpaxos.Disk.Entries.{IsIid}
use libfastpaxos.Acceptor.State.{Acceptor}
use libfastpaxos.Acceptor.Prepare.{handle_prepare}
use libfastpaxos.Acceptor.Accept.{handle_accept}
use libfastpaxos.Acceptor.Spec.{ballot_of, grants, prepared, prepare_entry}
use libfastpaxos.Acceptor.Promise.{recall, IsReady, handle_prepare-Answers}
use libfastpaxos.Acceptor.Vote.{holder, allows, handle_accept-Votes}
use libfastpaxos.Acceptor.Replies.{handle_prepare-sent}
use libfastpaxos.Acceptor.Safety.{Known, flag_of, holder-Known}
use libfastpaxos.Acceptor.Clear.{IsNotLater, IsClear, prepare-IsClear, accept-IsClear}

-- A learn message for the instance states no lower ballot.
abbrev pub IsAbove : ℤ → ℤ → PaxosMsg → Type 0
IsAbove iid b (learn m) = m.iid ≡ iid → b ≤ℤ m.ballot
IsAbove iid b _ = Unit {0}

abbrev pub NoAny : PaxosMsg → Type 0
NoAny (anyval ballot ids) = ⊥
NoAny _ = Unit {0}

grown :
    (e : Option FlatRecord) (iid ballot : ℤ) → ballot_of e ≤ℤ ballot_of (prepare_entry e iid ballot)
grown e iid ballot = elim (Bool-cases (grants e ballot)) [
  | inr refused ↦ rw refused (omega arith)
  | inl granted ↦ rw granted (higher e (ground arith))
]
  where
    higher :
        (e : Option FlatRecord)
        → ballot_of e <ℤ ballot
        → ballot_of e ≤ℤ (prepared iid ballot e).ballot
    higher none h = omega arith
    higher (some d) h = omega arith

-- An accept request that passes states no lower ballot than the one remembered.
vote_above :
    (o : Option AcceptorRecord) (e : Option FlatRecord) (a : AcceptMsg)
    → Known o e
    → flag_of o ≡ false
    → allows o a ≡ true
    → ballot_of e ≤ℤ a.ballot
vote_above none e a k f y = rw k (ground arith)
vote_above (some rec) e a k f y = rw k (ground arith)

module _ {db : Database} (r : IsReliable db) (iid : ℤ) (h_iid : IsIid iid) (b : ℤ)
    (Old : Packet → Type 0) where
  abbrev pub IsFine : Packet → Type 0
  IsFine p = Old p ⊎ IsAbove iid b p.msg

  -- The ballot `b` is promised for the instance, and no later packet is below it.
  pub record IsFirm (st : Acceptor db) : Type 0 where
    pub ready : IsReady r st
    pub clear : IsClear iid st
    pub bound : b ≤ℤ ballot_of (recall r st iid)
    pub told : All IsFine st.sent

  -- The entry of the instance, after one of `i` changed.
  bound-step :
      (st st' : Acceptor db) (i : ℤ)
      → IsFirm st
      → (i ≡ iid → ballot_of (recall r st iid) ≤ℤ ballot_of (recall r st' iid))
      → ((j : ℤ) → IsIid j → (i ≡ j → ⊥) → recall r st' j ≡ recall r st j)
      → b ≤ℤ ballot_of (recall r st' iid)
  bound-step st st' i q own others = elim (Bool-cases (eqb_ℤ i iid)) [
    | inl same ↦ omega (arith, q.bound, own (eqb→eq i iid same))
    | inr apart ↦ rw (others iid h_iid (ne_of_eqb i iid apart)) q.bound
  ]

  pub prepare-IsFirm :
      (st : Acceptor db) (u : Uninit) (m : PrepareMsg)
      → IsFirm st
      → IsIid m.iid
      → minus_one <ℤ m.ballot
      → IsNotLater iid m.iid
      → IsFirm (handle_prepare st u m)
  prepare-IsFirm st u m q h low near =
      let a = handle_prepare-Answers r st m h q.ready u low in
      record {
        ready = a.ready;
        clear = prepare-IsClear iid st u m q.clear near;
        bound =
            bound-step st (handle_prepare st u m) m.iid q
              (λ e.
                subst
                  (λ x. ballot_of (recall r st x) ≤ℤ ballot_of (recall r (handle_prepare st u m) x))
                  e (rw a.own (grown (recall r st m.iid) m.iid m.ballot)))
              a.others;
        told = handle_prepare-sent IsFine (λ id ps n. inr tt) st u m q.told;
      }

  -- What is found of the instance is in its slot, which holds no later one.
  flag-clear :
      (st : Acceptor db) (u : Uninit) (i : ℤ)
      → IsClear iid st
      → i ≡ iid
      → flag_of (holder st u i) ≡ false
  flag-clear st u i q e = elim (Bool-cases (eqb_ℤ i slot.iid)) [
    | inl same ↦ rw same (q.slots (get_acc_index i)).0
    | inr other ↦ elim (Bool-cases (ltb_ℤ slot.iid i)) [
      | inl new ↦ rw (other, new) refl
      | inr old ↦
          let near = (q.slots (get_acc_index i)).1 (ap get_acc_index (sym e)) in
          let below : slot.iid ≤ℤ i = subst (λ x. slot.iid ≤ℤ x) (sym e) near in
          absurd (ground arith)
    ]
  ]
    where
      slot : AcceptorRecord
      slot = st.acceptor_array (get_acc_index i)

  pub accept-IsFirm :
      (st : Acceptor db) (u : Uninit) (m : AcceptMsg)
      → IsFirm st
      → IsIid m.iid
      → IsNotLater iid m.iid
      → IsFirm (handle_accept st u m)
  accept-IsFirm st u m q h near = elim (handle_accept-Votes r st m h q.ready u) [
    | inr (_, e) ↦ subst IsFirm (sym e) q
    | inl (may, v) ↦ record {
      ready = v.ready;
      clear = accept-IsClear iid st u m q.clear near;
      bound =
          bound-step st (handle_accept st u m) m.iid q
            (λ e.
              subst
                (λ x. ballot_of (recall r st x) ≤ℤ ballot_of (recall r (handle_accept st u m) x)) e
                (rw v.own (up may e)))
            v.others;
      told = rw v.told (
          All-append IsFine st.sent _ q.told (
            inr (λ e.
                let k : ballot_of (recall r st iid) ≤ℤ m.ballot =
                  subst (λ x. ballot_of (recall r st x) ≤ℤ m.ballot) e (up may e) in
                omega (arith, k, q.bound)),
            tt,
          ));
    }
  ]
    where
      up :
          allows (holder st u m.iid) m ≡ true
          → m.iid ≡ iid
          → ballot_of (recall r st m.iid) ≤ℤ m.ballot
      up may e =
          vote_above (holder st u m.iid) (recall r st m.iid) m (holder-Known r st u m.iid h q.ready)
            (flag-clear st u m.iid q.clear e) may
