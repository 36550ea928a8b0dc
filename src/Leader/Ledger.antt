-- ===== src/Leader/Ledger.antt =====
-- The accept requests that lib/leader.c has sent, and the records that they came from: a record is
-- always past the ballots of its requests.
use mathlib.Core.List.{append_assoc}
use libfastpaxos.Base.{
  ℕ, ◌≡◌, refl, ◌∙◌, sym, ap, subst, List, [], ◌∷◌, ◌++◌, arith, Bool-cases, inl, inr, ◌⊎◌, ◌==◌,
  update, update_self, update_all, All, All-append, All-map,
}
use libfastpaxos.Base.Int.{ℤ, ◌≤ℤ◌, ◌<ℤ◌, pos_part, neg_part}
use libfastpaxos.Config.{get_pro_index, first_ballot}
use libfastpaxos.Message.{AcceptMsg, PaxosMsg, accept, Packet}
use libfastpaxos.Proposer.Ballots.{nth_ballot}
use libfastpaxos.Leader.State.{
  StatusFlag, p1_new, p1_pending, p1_ready, p1_finished, ProposerRecord,
}

-- An accept request that stands behind a record with this status: of an earlier instance of the
-- index, or of a ballot that the record has left or, once finished, is done with.
abbrev pub PastAs : StatusFlag → ProposerRecord → AcceptMsg → Type 0
PastAs p1_new rec a = ⊥
PastAs p1_pending rec a = (a.iid <ℤ rec.iid) ⊎ ((a.iid ≡ rec.iid) × (a.ballot <ℤ rec.ballot))
PastAs p1_ready rec a = (a.iid <ℤ rec.iid) ⊎ ((a.iid ≡ rec.iid) × (a.ballot <ℤ rec.ballot))
PastAs p1_finished rec a = (a.iid <ℤ rec.iid) ⊎ ((a.iid ≡ rec.iid) × (a.ballot ≤ℤ rec.ballot))

abbrev pub IsPast : ProposerRecord → AcceptMsg → Type 0
IsPast rec a = PastAs rec.status rec a

-- A ballot of the leader with this number, of any round.
abbrev pub IsOwn : ℤ → ℤ → Type 0
IsOwn id ballot = (n : ℕ) × (ballot ≡ nth_ballot n (first_ballot id))

-- A record in use stands at its index, with a ballot of the leader.
abbrev pub PlacedAs : ℤ → StatusFlag → ℕ → ℤ → ℤ → Type 0
PlacedAs id p1_new k iid ballot = Unit
PlacedAs id _ k iid ballot = (get_pro_index iid ≡ k) × IsOwn id ballot

abbrev pub IsPlaced : ℤ → ℕ → ProposerRecord → Type 0
IsPlaced id k rec = PlacedAs id rec.status k rec.iid rec.ballot

-- The accept requests among some packets, oldest first.
abbrev pub accept_in : PaxosMsg → List AcceptMsg
accept_in (accept m) = m ∷ []
accept_in _ = []

abbrev pub accepts : List Packet → List AcceptMsg
accepts [] = []
accepts (p ∷ ps) = accept_in p.msg ++ accepts ps

pub accepts-append : (ps qs : List Packet) → accepts (ps ++ qs) ≡ accepts ps ++ accepts qs
accepts-append [] qs = refl
accepts-append (p ∷ ps) qs =
    ap (λ t. accept_in p.msg ++ t) (accepts-append ps qs)
    ∙ sym (append_assoc (accept_in p.msg) (accepts ps) (accepts qs))

-- Not of the same instance and ballot.
abbrev pub Apart : AcceptMsg → AcceptMsg → Type 0
Apart a b = a.iid ≡ b.iid → a.ballot ≡ b.ballot → ⊥

-- Each is apart from all behind it.
abbrev pub AllApart : List AcceptMsg → Type 0
AllApart [] = Unit
AllApart (a ∷ reqs) = All (Apart a) reqs × AllApart reqs

AllApart-append :
    (reqs : List AcceptMsg) (b : AcceptMsg)
    → AllApart reqs
    → All (λ a. Apart a b) reqs
    → AllApart (reqs ++ (b ∷ []))
AllApart-append [] b d h = (tt, tt)
AllApart-append (a ∷ reqs) b d h =
    (All-append (Apart a) reqs (b ∷ []) d.0 (h.0, tt), AllApart-append reqs b d.1 h.1)

pub record IsLedger (id : ℤ) (arr : ℕ → ProposerRecord) (reqs : List AcceptMsg) : Type 0 where
  pub placed : (k : ℕ) → IsPlaced id k (arr k)
  pub owned : All (λ a. IsOwn id a.ballot) reqs
  pub past : All (λ a. IsPast (arr (get_pro_index a.iid)) a) reqs
  pub apart : AllApart reqs

-- A record is written to its index, past all that the old one was past.
pub put-IsLedger :
    {id : ℤ} (arr : ℕ → ProposerRecord) (reqs : List AcceptMsg) (k : ℕ) (rec : ProposerRecord)
    → IsLedger id arr reqs
    → IsPlaced id k rec
    → ((a : AcceptMsg) → get_pro_index a.iid ≡ k → IsPast (arr k) a → IsPast rec a)
    → IsLedger id (update arr k rec) reqs
put-IsLedger {id = id} arr reqs k rec q at move = record {
  placed = update_all (IsPlaced id) arr k rec at (λ j _. q.placed j);
  past = All-map moved reqs q.past;
  owned = q.owned;
  apart = q.apart;
}
  where
    moved :
        (a : AcceptMsg)
        → IsPast (arr (get_pro_index a.iid)) a
        → IsPast (update arr k rec (get_pro_index a.iid)) a
    moved a h = elim (Bool-cases (k == get_pro_index a.iid)) [
      | inl e ↦
          let p : get_pro_index a.iid ≡ k = ground arith in
          rw e (move a p (subst (λ j. IsPast (arr j) a) p h))
      | inr e ↦ rw e h
    ]

-- The request of a ready record, which is finished with it.
pub send-IsLedger :
    {id : ℤ} (arr : ℕ → ProposerRecord) (reqs : List AcceptMsg) (k : ℕ) (b : AcceptMsg)
    → IsLedger id arr reqs
    → (arr k).status ≡ p1_ready
    → b.iid ≡ (arr k).iid
    → b.ballot ≡ (arr k).ballot
    → IsLedger id (update arr k (record (arr k) { status = p1_finished })) (reqs ++ (b ∷ []))
send-IsLedger {id = id} arr reqs k b q ready i n =
    let placed : PlacedAs id p1_ready k (arr k).iid (arr k).ballot =
      subst (λ s. PlacedAs id s k (arr k).iid (arr k).ballot) ready (q.placed k) in
    let at = placed.0 in
    let q' =
      put-IsLedger arr reqs k (record (arr k) { status = p1_finished }) q placed
        (λ a e h. done a (subst (λ s. PastAs s (arr k) a) ready h)) in
    record {
      placed = q'.placed;
      owned =
          All-append (λ a. IsOwn id a.ballot) reqs (b ∷ []) q.owned
            (subst (IsOwn id) (sym n) placed.1, tt);
      past = All-append _ reqs (b ∷ []) q'.past (own at, tt);
      apart = AllApart-append reqs b q.apart (All-map (fresh at) reqs q.past);
    }
  where
    done : (a : AcceptMsg) → PastAs p1_ready (arr k) a → PastAs p1_finished (arr k) a
    done a (inl h) = inl h
    done a (inr (e, h)) = inr (e, omega arith)

    own :
        get_pro_index (arr k).iid ≡ k
        → IsPast (update arr k (record (arr k) { status = p1_finished }) (get_pro_index b.iid)) b
    own at =
        let e : get_pro_index b.iid ≡ k = ap get_pro_index i ∙ at in
        rw (e, update_self arr k (record (arr k) { status = p1_finished }))
          (inr (i, rw n (omega arith)))

    fresh :
        get_pro_index (arr k).iid ≡ k
        → (a : AcceptMsg) → IsPast (arr (get_pro_index a.iid)) a
        → Apart a b
    fresh at a h ei eb =
        let e : get_pro_index a.iid ≡ k = ap get_pro_index (ei ∙ i) ∙ at in
        before (subst (λ s. PastAs s (arr k) a) ready (subst (λ j. IsPast (arr j) a) e h)) (ei ∙ i)
          (eb ∙ n)
      where
        before : PastAs p1_ready (arr k) a → a.iid ≡ (arr k).iid → a.ballot ≡ (arr k).ballot → ⊥
        before (inl h) p q = omega (arith, h, ap pos_part p, ap neg_part p)
        before (inr (e, h)) p q = omega (arith, h, ap pos_part q, ap neg_part q)
