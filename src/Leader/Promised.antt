-- ===== src/Leader/Promised.antt =====
-- A promise that lib/leader.c handles leaves the promises counted right.
use mathlib.Core.Option.{some-injective}
use libfastpaxos.Base.{
  ℕ, suc, ◌<◌, ◌≡◌, refl, sym, subst, true, not, Option, none, some, arith, Bool-cases, inl, inr,
  ltb, if◌then◌else◌,
}
use libfastpaxos.Base.Int.{ℤ, pos, negsuc, minus_one, ◌≤ℤ◌, eqb_ℤ, ltb_ℤ, eqb→eq}
use libfastpaxos.Config.{n_of_acceptors, quorum}
use libfastpaxos.Message.{PromiseMsg}
use libfastpaxos.Leader.State.{p1_pending, p1_ready, is_pending, Leader}
use libfastpaxos.Leader.Phase1.{
  acceptor_index, with_promise, keep_promise, count_ready, handle_promise,
}
use libfastpaxos.Leader.Counts.{CountedAs, with_promise-counts, pending_eq}
use libfastpaxos.Leader.Quorate.{IsQuorate, put-IsQuorate}

-- A handler that faults has no state behind it.
abbrev pub AfterPromise : Option (ℤ × Leader) → Type 0
AfterPromise none = Unit
AfterPromise (some (ret, st)) = IsQuorate st

abbrev pub AfterHandler : Option Leader → Type 0
AfterHandler none = Unit
AfterHandler (some st) = IsQuorate st

keep_promise-IsQuorate :
    (st : Leader) (k a : ℕ) (prom : PromiseMsg)
    → IsQuorate st
    → a < n_of_acceptors
    → (st.proposer_array k).iid ≡ prom.iid
    → (st.proposer_array k).status ≡ p1_pending
    → eqb_ℤ ((st.proposer_array k).promises a).iid minus_one ≡ true
    → IsQuorate (keep_promise st k (with_promise (st.proposer_array k) a prom)).1
keep_promise-IsQuorate st k a prom q h same e free =
    let rec = st.proposer_array k in
    let c = subst (λ s. CountedAs s rec) e (q.counted k) in
    let n = with_promise-counts rec a prom c h same free in
    let rec' = with_promise rec a prom in
    elim (Bool-cases (ltb (suc rec.promise_count) quorum)) [
      | inl y ↦ rw y (
          put-IsQuorate st k rec' st.p1info q
            (subst (λ s. CountedAs s rec') (sym e) (c.0, n, ground arith)) q.started)
      | inr z ↦ rw z (
          put-IsQuorate st k (record rec' { status = p1_ready }) (count_ready st.p1info rec.iid) q
            (c.0, ground arith) (up st.p1info.highest_ready rec.iid q.started))
    ]
  where
    up : (a b : ℤ) → minus_one ≤ℤ a → minus_one ≤ℤ (if ltb_ℤ a b then b else a)
    up a b h = ground arith

ltb→lt : (a b : ℕ) → ltb a b ≡ true → a < b
ltb→lt a b h = ground arith

acceptor_index-lt : (id : ℤ) (a : ℕ) → acceptor_index id ≡ some a → a < n_of_acceptors
acceptor_index-lt (pos n) a e = elim (Bool-cases (ltb n n_of_acceptors)) [
  | inl y ↦
      let p : some n ≡ some a = rw y at e in
      let q = some-injective n a p in omega (arith, q, ltb→lt n 3 y)
  | inr z ↦ let p : none ≡ some a = rw z at e in absurd (cc p)
]
acceptor_index-lt (negsuc n) a e = absurd (cc e)

pub handle_promise-IsQuorate :
    (st : Leader) (prom : PromiseMsg) (id : ℤ) (k : ℕ)
    → IsQuorate st
    → AfterPromise (handle_promise st prom id k)
unfolding handle_promise
handle_promise-IsQuorate st prom id k q =
    let rec = st.proposer_array k in
    elim (Bool-cases (eqb_ℤ rec.iid prom.iid)) [
      | inr other ↦ rw other q
      | inl same ↦ elim (Bool-cases (is_pending rec.status)) [
        | inr idle ↦ rw (same, idle) q
        | inl wait ↦ elim (Bool-cases (eqb_ℤ rec.ballot prom.ballot)) [
          | inr old ↦ rw (same, wait, old) q
          | inl now ↦
              rw (same, wait, now)
                (at_place (acceptor_index id) refl (eqb→eq rec.iid prom.iid same)
                  (pending_eq rec.status wait))
        ]
      ]
    ]
  where
    at_place :
        (o : Option ℕ)
        → acceptor_index id ≡ o
        → (st.proposer_array k).iid ≡ prom.iid
        → (st.proposer_array k).status ≡ p1_pending
        → AfterPromise (elim o [
          | none ↦ none
          | some a ↦ some (
              if not (eqb_ℤ ((st.proposer_array k).promises a).iid minus_one)
              then (pos 0, st)
              else keep_promise st k (with_promise (st.proposer_array k) a prom))
        ])
    at_place none e same wait = tt
    at_place (some a) e same wait =
        elim (Bool-cases (eqb_ℤ ((st.proposer_array k).promises a).iid minus_one)) [
          | inl free ↦
              rw free
                (keep_promise-IsQuorate st k a prom q (acceptor_index-lt id a e) same wait free)
          | inr held ↦ rw held q
        ]
