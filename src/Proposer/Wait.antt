-- ===== src/Proposer/Wait.antt =====
-- When the wait of a client ends.
use mathlib.Core.List.{append-nil, append_assoc}
use libfastpaxos.Base.{
  ℕ, ◌≤◌, ◌≡◌, refl, ◌∙◌, sym, arith, true, false, List, [], ◌∷◌, ◌++◌, Option, some, ltb,
}
use libfastpaxos.Base.Int.{ℤ, pos, ◌+ℤ◌, eqb_ℤ}
use libfastpaxos.Config.{max_value_size}
use libfastpaxos.Message.{AcceptMsg, accept, Packet, acceptors_net}
use libfastpaxos.Learner.{Delivery}
use libfastpaxos.Proposer.{Proposer, accept_packet, proposer_submit_value, wait_delivered}
use libfastpaxos.Proposer.Retry.{skipped}
use libfastpaxos.Proposer.Wake.{own_value_wakes}

-- The values of others, for the instances from `i` on in order, and then one of proposer `id`.
abbrev pub EndsWith : ℤ → ℤ → List Delivery → Delivery → Type 0
EndsWith id i [] own = (own.iid ≡ i) × (own.proposer_id ≡ id)
EndsWith id i (d ∷ ds) own =
    (d.iid ≡ i) × (eqb_ℤ id d.proposer_id ≡ false) × EndsWith id (i +ℤ pos 1) ds own

-- One accept request for the instance behind each of some deliveries.
abbrev pub retries : AcceptMsg → ℕ → List Delivery → List Packet
retries m size [] = []
retries m size (d ∷ ds) =
    record { net = acceptors_net; msg = accept (record m { iid = d.iid +ℤ pos 1 }); size = size }
    ∷ retries m size ds

retries-iid :
    (m : AcceptMsg) (i : ℤ) (size : ℕ) (ds : List Delivery)
    → retries (record m { iid = i }) size ds ≡ retries m size ds
retries-iid m i size [] = refl
retries-iid m i size (d ∷ ds) = rw (retries-iid m i size ds) refl

-- What a client that was woken leaves behind.
abbrev pub Woken : Proposer → List Delivery → Option Proposer → Type 0
Woken p ds o =
    (p' : Proposer) × (o ≡ some p')
    × (p'.client_waiting ≡ false)
    × (p'.sent ≡ p.sent ++ retries p.amsg p.msg_size ds)

wait-Woken :
    (p : Proposer) (ds : List Delivery) (own : Delivery) (rest : List Delivery)
    → p.client_waiting ≡ true
    → EndsWith p.proposer_id p.current_iid ds own
    → Woken p ds (wait_delivered p (ds ++ (own ∷ rest)))
unfolding wait_delivered
wait-Woken p [] own rest w h =
    let (p', e, woken, i, sent, log, stale) = own_value_wakes p own w h.0 h.1 in
    rw (w, e) (p', ended rest p' woken, woken, sent ∙ sym (append-nil p.sent))
  where
    ended :
        (ds : List Delivery) (p' : Proposer)
        → p'.client_waiting ≡ false
        → wait_delivered p' ds ≡ some p'
    ended [] p' w = refl
    ended (d ∷ ds) p' w = rw w refl
wait-Woken p (d ∷ ds) own rest w h =
    let (p', e, s) = skipped p d w h.0 h.1 in
    let (p'', f, woken, sent) = wait-Woken p' ds own rest s.6 (rw (s.7, s.8) h.2) in
    rw (w, e)
      (
        p'',
        f,
        woken,
        sent
            ∙ rw (s.0, s.1, s.2, h.0, retries-iid p.amsg (p.current_iid +ℤ pos 1) p.msg_size ds)
                (append_assoc p.sent _ (retries p.amsg p.msg_size ds)),
      )

-- However many values of others are delivered before its own, a client that submits a value is
-- woken by the delivery of its own, without an assertion that fails: until then it has sent its
-- value at once, and once more behind each of the others, for the next instance. No timeout fires in
-- between.
pub submit_is_woken :
    (p : Proposer) (value : List ℕ) (size : ℕ) (ds : List Delivery) (own : Delivery)
    (rest : List Delivery)
    → size ≤ max_value_size
    → EndsWith p.proposer_id p.current_iid ds own
    → let start = proposer_submit_value p value size in
      (p' : Proposer) × (wait_delivered start (ds ++ (own ∷ rest)) ≡ some p')
      × (p'.client_waiting ≡ false)
      × (p'.sent ≡ p.sent ++ (accept_packet start ∷ retries start.amsg start.msg_size ds))
unfolding proposer_submit_value
submit_is_woken p value size ds own rest h ends =
    let small : ltb max_value_size size ≡ false = ground arith in
    let (p', e, woken, sent) =
      wait-Woken (proposer_submit_value p value size) ds own rest (rw small refl) (rw small ends) in
    (p', e, woken, sent ∙ rw small (append_assoc p.sent _ _))
