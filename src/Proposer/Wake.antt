-- ===== src/Proposer/Wake.antt =====
-- When the callback of a proposer (lib/proposer.c) wakes its client.
use libfastpaxos.Base.{
  ◌≡◌, refl, true, false, [], ◌∷◌, ◌++◌, some, if◌then◌else◌, Bool-cases, inl, inr,
}
use libfastpaxos.Base.Int.{pos, ◌+ℤ◌, eqb_ℤ, eqb_refl}
use libfastpaxos.Learner.{Delivery}
use libfastpaxos.Proposer.{Proposer, TimeoutInfo, proposer_check_timeout, proposer_deliver_callback}
use libfastpaxos.Proposer.Retry.{IsStale}

-- The delivery of the proposer's own value to a client that waits ends its wait: the client is
-- called if it gave a function, and no timeout sends the value again.
pub own_value_wakes :
    (p : Proposer) (d : Delivery)
    → p.client_waiting ≡ true
    → d.iid ≡ p.current_iid
    → d.proposer_id ≡ p.proposer_id
    → (p' : Proposer) × (proposer_deliver_callback p d ≡ some p')
      × (p'.client_waiting ≡ false)
      × (p'.current_iid ≡ p.current_iid +ℤ pos 1)
      × (p'.sent ≡ p.sent)
      × (p'.client_log ≡ (if p.has_client_func then p.client_log ++ (d ∷ []) else p.client_log))
      × ((ti : TimeoutInfo) → IsStale p' ti)
unfolding proposer_deliver_callback proposer_check_timeout
own_value_wakes p d w same own =
    let at : eqb_ℤ p.current_iid d.iid ≡ true = rw same (eqb_refl p.current_iid) in
    let mine : eqb_ℤ p.proposer_id d.proposer_id ≡ true = rw own (eqb_refl p.proposer_id) in
    rw (at, w, mine)
      elim (Bool-cases p.leader) [
        | inl l ↦ elim (Bool-cases p.has_client_func) [
          | inl f ↦ rw (l, f) (_, refl, refl, refl, refl, refl, λ ti. refl)
          | inr f ↦ rw (l, f) (_, refl, refl, refl, refl, refl, λ ti. refl)
        ]
        | inr l ↦ elim (Bool-cases p.has_client_func) [
          | inl f ↦ rw (l, f) (_, refl, refl, refl, refl, refl, λ ti. refl)
          | inr f ↦ rw (l, f) (_, refl, refl, refl, refl, refl, λ ti. refl)
        ]
      ]
