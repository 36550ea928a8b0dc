-- ===== src/Proposer/Retry.antt =====
-- When a proposer sends its value again.
use mathlib.Core.List.{append-nil, append_assoc}
use libfastpaxos.Base.{
  ℕ, zero, suc, ◌≤◌, ◌≡◌, refl, ◌∙◌, sym, arith, Bool, true, false, ◌&&◌, List, [], ◌∷◌, ◌++◌, some,
  ltb, All, All-append, Bool-cases, inl, inr, ◌⊎◌, subst,
}
use libfastpaxos.Base.Int.{pos, ◌+ℤ◌, ◌≤ℤ◌, eqb_ℤ, eqb_refl, +ℤ_parts}
use libfastpaxos.Config.{max_value_size, max_udp_msg_size}
use libfastpaxos.Message.{Packet, wire_size}
use libfastpaxos.Learner.{Delivery}
use libfastpaxos.Proposer.{
  Proposer, TimeoutInfo, accept_packet, is_current, proposer_check_timeout,
  set_proposer_check_timeout, try_next_instance, proposer_deliver_callback, proposer_submit_value,
}

abbrev pub copies : ℕ → Packet → List Packet
copies zero x = []
copies (suc n) x = x ∷ copies n x

-- The timeout that guards the last accept of a waiting client.
abbrev pub guard_of : Proposer → TimeoutInfo
guard_of p = record { instance_id = p.last_accept_iid; hash = p.last_accept_hash }

-- `n` timeouts in a row, with nothing else between them. Each fires a timeout that is armed, the
-- oldest first since all have the same delay; libevent disarms a timeout when it fires.
pub time_out : ℕ → Proposer → Proposer
time_out zero p = p
time_out (suc n) p = elim p.timers [
  | [] ↦ p
  | ti ∷ ts ↦ time_out n (proposer_check_timeout (record p { timers = ts }) ti)
]

-- One timeout is armed, and it guards the last accept of a client that waits.
record IsGuarded (p : Proposer) : Type 0 where
  waits : p.client_waiting ≡ true
  armed : p.timers ≡ guard_of p ∷ []

fired :
    (p : Proposer)
    → IsGuarded p
    → let p' = proposer_check_timeout (record p { timers = [] }) (guard_of p) in
      (p'.sent ≡ p.sent ++ (accept_packet p ∷ []))
      × IsGuarded p'
      × (accept_packet p' ≡ accept_packet p)
unfolding proposer_check_timeout
fired p g =
    let c : is_current p (guard_of p) ≡ true =
      rw (g.waits, eqb_refl p.last_accept_iid, eqb_refl p.last_accept_hash) refl in
    rw c (refl, record { waits = g.waits; armed = refl }, refl)

time_out-sent :
    (n : ℕ) (p : Proposer)
    → IsGuarded p
    → ((time_out n p).sent ≡ p.sent ++ copies n (accept_packet p)) × IsGuarded (time_out n p)
unfolding time_out
time_out-sent zero p g = (sym (append-nil p.sent), g)
time_out-sent (suc n) p g =
    let (out, g', same) = fired p g in
    let (sent, last) =
      time_out-sent n (proposer_check_timeout (record p { timers = [] }) (guard_of p)) g' in
    rw g.armed (
      sent
          ∙ rw (out, same)
              (append_assoc p.sent (accept_packet p ∷ []) (copies n (accept_packet p))),
      last,
    )

-- A submitted value that is not above PAXOS_MAX_VALUE_SIZE goes out at once, and, if no timeout was
-- armed before, once more for each of the next `n` timeouts while nothing is delivered: always the
-- same packet, of the length of its message and within a UDP message. After them the client waits
-- still, and one timeout is armed, which guards the last accept.
pub submit_and_retry :
    (n : ℕ) (p : Proposer) (value : List ℕ) (size : ℕ)
    → size ≤ max_value_size
    → p.timers ≡ []
    → let p' = proposer_submit_value p value size in
      let q = time_out n p' in
      (q.sent ≡ p.sent ++ copies (suc n) (accept_packet p'))
      × (q.client_waiting ≡ true)
      × (q.timers ≡ guard_of q ∷ [])
      × ((accept_packet p').size ≡ wire_size (accept_packet p').msg)
      × ((accept_packet p').size ≤ max_udp_msg_size)
unfolding proposer_submit_value
submit_and_retry n p value size h unarmed =
    let small : ltb max_value_size size ≡ false = ground arith in
    rw small (
      let (sent, g) = time_out-sent n _ (record { waits = refl; armed = rw unarmed refl }) in
      (sent ∙ append_assoc p.sent _ _, g.waits, g.armed, omega arith, omega arith))

-- The timeout guards nothing: when it fires, it changes nothing.
abbrev pub IsStale : Proposer → TimeoutInfo → Type 0
IsStale p ti = proposer_check_timeout p ti ≡ p

-- The timeout armed for the accept of the next instance.
abbrev pub next_timeout : Proposer → TimeoutInfo
next_timeout p = record { instance_id = p.current_iid +ℤ pos 1; hash = p.last_accept_hash +ℤ pos 1 }

-- The callback for the value of someone else: what it sends, arms and notes.
abbrev pub Skipped : Proposer → Proposer → Type 0
Skipped p p' =
    (p'.sent ≡ p.sent ++ (accept_packet p' ∷ []))
    × (p'.amsg ≡ record p.amsg { iid = p.current_iid +ℤ pos 1 })
    × (p'.msg_size ≡ p.msg_size)
    × (p'.timers ≡ p.timers ++ (next_timeout p ∷ []))
    × (p'.last_accept_iid ≡ p.current_iid)
    × (p'.last_accept_hash ≡ p.last_accept_hash +ℤ pos 1)
    × (p'.client_waiting ≡ true)
    × (p'.current_iid ≡ p.current_iid +ℤ pos 1)
    × (p'.proposer_id ≡ p.proposer_id)

pub skipped :
    (p : Proposer) (d : Delivery)
    → p.client_waiting ≡ true
    → d.iid ≡ p.current_iid
    → eqb_ℤ p.proposer_id d.proposer_id ≡ false
    → (p' : Proposer) × (proposer_deliver_callback p d ≡ some p') × Skipped p p'
unfolding proposer_deliver_callback try_next_instance set_proposer_check_timeout
skipped p d w same other =
    let at : eqb_ℤ p.current_iid d.iid ≡ true = rw same (eqb_refl p.current_iid) in
    rw (at, w, other)
      elim (Bool-cases p.leader) [
        | inl l ↦ elim (Bool-cases p.has_client_func) [
          | inl f ↦ rw (l, f) (_, refl, (refl, refl, refl, refl, refl, refl, refl, refl, refl))
          | inr f ↦ rw (l, f) (_, refl, (refl, refl, refl, refl, refl, refl, refl, refl, refl))
        ]
        | inr l ↦ elim (Bool-cases p.has_client_func) [
          | inl f ↦ rw (l, f) (_, refl, (refl, refl, refl, refl, refl, refl, refl, refl, refl))
          | inr f ↦ rw (l, f) (_, refl, (refl, refl, refl, refl, refl, refl, refl, refl, refl))
        ]
      ]

and_false : (b : Bool) → b && false ≡ false
and_false true = refl
and_false false = refl

-- Neither the timeouts of accepts sent before nor the one just armed name the last accept.
stale :
    (p p' : Proposer) (ti : TimeoutInfo)
    → Skipped p p'
    → (ti.hash ≤ℤ p.last_accept_hash) ⊎ (ti ≡ next_timeout p)
    → IsStale p' ti
unfolding proposer_check_timeout
stale p p' ti s (inl h) =
    let old : eqb_ℤ ti.hash p'.last_accept_hash ≡ false =
      rw s.5 (ground (arith, +ℤ_parts p.last_accept_hash (pos 1))) in
    rw (s.6, old, and_false (eqb_ℤ ti.instance_id p'.last_accept_iid)) refl
stale p p' ti s (inr e) =
    let ahead : eqb_ℤ ti.instance_id p'.last_accept_iid ≡ false =
      rw (s.4, e) (ground (arith, +ℤ_parts p.current_iid (pos 1))) in
    rw (s.6, ahead) refl

-- After someone else's value is delivered to a client that waits, its own value goes out once more,
-- for the next instance, and then never again by a timeout: neither the timeout just armed, which
-- names the next instance while `last_accept_iid` names the delivered one, nor an older one, whose
-- hash is that of an accept sent before, sends anything when it fires; the hashes of the timeouts
-- armed before must not be above `last_accept_hash`.
pub skip_disarms :
    (p : Proposer) (d : Delivery)
    → p.client_waiting ≡ true
    → d.iid ≡ p.current_iid
    → eqb_ℤ p.proposer_id d.proposer_id ≡ false
    → All (λ ti. ti.hash ≤ℤ p.last_accept_hash) p.timers
    → (p' : Proposer) × (proposer_deliver_callback p d ≡ some p')
      × (p'.sent ≡ p.sent ++ (accept_packet p' ∷ []))
      × (p'.amsg ≡ record p.amsg { iid = p.current_iid +ℤ pos 1 })
      × All (IsStale p') p'.timers
skip_disarms p d w same other hashes =
    let (p', e, s) = skipped p d w same other in
    (
      p',
      e,
      s.0,
      s.1,
      subst (All (IsStale p')) (sym s.3) (
          All-append (IsStale p') p.timers (next_timeout p ∷ []) (all_old p.timers hashes)
            (stale p p' (next_timeout p) s (inr refl), tt)),
    )
  where
    all_old :
        (ts : List TimeoutInfo)
        → All (λ ti. ti.hash ≤ℤ p.last_accept_hash) ts
        → All (IsStale (skipped p d w same other).0) ts
    all_old [] h = tt
    all_old (t ∷ ts) h = (stale p _ t (skipped p d w same other).2 (inl h.0), all_old ts h.1)
