-- ===== src/Acceptor/Source.antt =====
-- Where the values of an acceptor come from: `Asked` is any property of the accept requests that
-- reach it, such as that a proposer has sent them.
use libfastpaxos.Base.{
  ℕ, ◌≡◌, refl, ◌∙◌, sym, ap, subst, List, Option, none, some, take, Bool-cases, inl, inr, ◌⊎◌, All,
  All-append,
}
use mathlib.Core.Option.{some-injective}
use libfastpaxos.Base.Int.{ℤ, minus_one, ◌<ℤ◌, eqb_ℤ, eqb→eq, ne_of_eqb}
use libfastpaxos.Message.{PrepareMsg, AcceptMsg, PaxosMsg, learn}
use libfastpaxos.Disk.{Database, IsReliable, FlatRecord, Uninit}
use libfastpaxos.Disk.Entries.{IsIid}
use libfastpaxos.Acceptor.State.{Acceptor}
use libfastpaxos.Acceptor.Prepare.{handle_prepare}
use libfastpaxos.Acceptor.Accept.{handle_accept}
use libfastpaxos.Acceptor.Anyval.{handle_anyval}
use libfastpaxos.Acceptor.Spec.{grants, prepared, prepare_entry}
use libfastpaxos.Acceptor.Promise.{recall, IsReady, handle_prepare-Answers}
use libfastpaxos.Acceptor.Vote.{handle_accept-Votes}
use libfastpaxos.Acceptor.Enable.{Enables, handle_anyval-Enables}
use libfastpaxos.Acceptor.Replies.{handle_prepare-sent}

-- Nothing, or the value of an accept request for the instance.
abbrev pub From : (AcceptMsg → Type 0) → ℤ → ℕ → List ℕ → Type 0
From Asked iid size value =
    (size ≡ 0)
    ⊎ ((a : AcceptMsg) × Asked a
        × (a.iid ≡ iid)
        × (a.value_size ≡ size)
        × (take a.value_size a.value ≡ value))

-- A learn message has a value that someone asked for.
abbrev pub IsSourced : (AcceptMsg → Type 0) → PaxosMsg → Type 0
IsSourced Asked (learn m) = From Asked m.iid m.value_size m.value
IsSourced Asked _ = Unit {0}

module _ {db : Database} (r : IsReliable db) (Asked : AcceptMsg → Type 0) where
  -- A well-formed acceptor remembers and tells only what someone asked for.
  pub record IsTruthful (st : Acceptor db) : Type 0 where
    pub ready : IsReady r st
    pub memory :
        (j : ℤ) (d : FlatRecord)
        → IsIid j
        → recall r st j ≡ some d
        → From Asked d.iid d.value_size d.value
    pub told : All (λ p. IsSourced Asked p.msg) st.sent

  -- Where one entry changes, to one with a source.
  memory-step :
      (st st' : Acceptor db) (i : ℤ)
      → IsTruthful st
      → ((d : FlatRecord) → recall r st' i ≡ some d → From Asked d.iid d.value_size d.value)
      → ((j : ℤ) → IsIid j → (i ≡ j → ⊥) → recall r st' j ≡ recall r st j)
      → (j : ℤ) (d : FlatRecord) → IsIid j
      → recall r st' j ≡ some d
      → From Asked d.iid d.value_size d.value
  memory-step st st' i q own others j d hj e = elim (Bool-cases (eqb_ℤ i j)) [
    | inl same ↦ own d (ap (recall r st') (eqb→eq i j same) ∙ e)
    | inr apart ↦ q.memory j d hj (sym (others j hj (ne_of_eqb i j apart)) ∙ e)
  ]

  prepared-From :
      (e : Option FlatRecord) (iid ballot : ℤ) (d : FlatRecord)
      → ((d : FlatRecord) → e ≡ some d → From Asked d.iid d.value_size d.value)
      → prepare_entry e iid ballot ≡ some d
      → From Asked d.iid d.value_size d.value
  prepared-From e iid ballot d h p = elim (Bool-cases (grants e ballot)) [
    | inr no_grant ↦ h d (rw no_grant at p)
    | inl granted ↦ go e h (some-injective _ _ (rw granted at p))
  ]
    where
      go :
          (e : Option FlatRecord)
          → ((d : FlatRecord) → e ≡ some d → From Asked d.iid d.value_size d.value)
          → prepared iid ballot e ≡ d
          → From Asked d.iid d.value_size d.value
      go none h p = inl (ap (λ x. x.value_size) (sym p))
      go (some x) h p = subst (λ y. From Asked y.iid y.value_size y.value) p (h x refl)

  pub prepare-IsTruthful :
      (st : Acceptor db) (u : Uninit) (m : PrepareMsg)
      → IsTruthful st
      → IsIid m.iid
      → minus_one <ℤ m.ballot
      → IsTruthful (handle_prepare st u m)
  prepare-IsTruthful st u m q h b =
      let a = handle_prepare-Answers r st m h q.ready u b in
      record {
        ready = a.ready;
        memory =
            memory-step st (handle_prepare st u m) m.iid q
              (λ d e.
                prepared-From (recall r st m.iid) m.iid m.ballot d (λ x p. q.memory m.iid x h p)
                  (sym a.own ∙ e))
              a.others;
        told = handle_prepare-sent (λ p. IsSourced Asked p.msg) (λ id ps n. tt) st u m q.told;
      }

  pub accept-IsTruthful :
      (st : Acceptor db) (u : Uninit) (m : AcceptMsg)
      → IsTruthful st
      → IsIid m.iid
      → Asked m
      → IsTruthful (handle_accept st u m)
  accept-IsTruthful st u m q h asked = elim (handle_accept-Votes r st m h q.ready u) [
    | inr (_, e) ↦ subst IsTruthful (sym e) q
    | inl (_, v) ↦ record {
      ready = v.ready;
      memory =
          memory-step st (handle_accept st u m) m.iid q
            (λ d e.
              subst (λ y. From Asked y.iid y.value_size y.value)
                (some-injective _ _ (sym v.own ∙ e)) (inr (m, asked, refl, refl, refl)))
            v.others;
      told = rw v.told (
          All-append (λ p. IsSourced Asked p.msg) st.sent _ q.told
            (inr (m, asked, refl, refl, refl), tt));
    }
  ]

  pub anyval-IsTruthful :
      (st : Acceptor db) (u : Uninit) (ballot iid : ℤ) (st' : Acceptor db)
      → IsTruthful st
      → IsIid iid
      → handle_anyval st u ballot iid ≡ some st'
      → IsTruthful st'
  anyval-IsTruthful st u ballot iid st' q h e =
      elim (handle_anyval-Enables r st iid ballot h q.ready u) [
        | inl (_, _, fault) ↦ absurd (cc (fault, e))
        | inr (inl (_, _, (st₁, same, en, _))) ↦
            subst IsTruthful (some-injective _ _ (sym same ∙ e)) (after_any st₁ en)
        | inr (inr (inl (_, _, (st₁, same, en, _)))) ↦
            subst IsTruthful (some-injective _ _ (sym same ∙ e)) (after_any st₁ en)
        | inr (inr (inr (_, same))) ↦ subst IsTruthful (some-injective _ _ (sym same ∙ e)) q
      ]
    where
      after_any : (st₁ : Acceptor db) → Enables r st iid ballot st₁ → IsTruthful st₁
      after_any st₁ en = record {
        ready = en.ready;
        memory =
            memory-step st st₁ iid q
              (λ d p. inl (ap (λ x. x.value_size) (some-injective _ _ (sym p ∙ en.own)))) en.others;
        told = rw en.silent q.told;
      }
