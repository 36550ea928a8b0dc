-- ===== src/Acceptor/Kept.antt =====
-- A promise of lib/acceptor.c is kept over any run without any messages.
use mathlib.Core.List.{Memᴰ}
use libfastpaxos.Base.{
  ◌≡◌, refl, ◌∙◌, sym, ap, subst, true, List, [], ◌∷◌, Option, none, some, Bool-cases, inl, inr,
  ◌⊎◌, All, All-append, All-map, if_both, ltb, length,
}
use libfastpaxos.Base.Int.{ℤ, pos, minus_one, ◌≤ℤ◌, ◌<ℤ◌, eqb_ℤ, ltb_ℤ, eqb→eq}
use libfastpaxos.Config.{get_acc_index}
use libfastpaxos.Message.{
  PrepareMsg, PaxosMsg, prepare_batch, accept, learner_sync, promise_batch, learn, anyval,
  unknown_type, Packet,
}
use libfastpaxos.Disk.{
  Database, IsReliable, AcceptorRecord, FlatRecord, Uninit, flatten, unflatten, disk_force_syncrony,
}
use libfastpaxos.Disk.Entries.{IsIid, lookup-entry}
use libfastpaxos.Acceptor.State.{
  Acceptor, promise_headers, flush_promises, synced, send_learn_message,
}
use libfastpaxos.Acceptor.Prepare.{handle_prepare, prepare_all, handle_prepare_batch}
use libfastpaxos.Acceptor.Accept.{handle_lsync, handle_batch_lsync, has_value}
use libfastpaxos.Acceptor.Anyval.{handle_message}
use libfastpaxos.Acceptor.Spec.{ballot_of}
use libfastpaxos.Acceptor.Promise.{recall, IsReady, held_instance}
use libfastpaxos.Acceptor.Runs.{IsProper}
use libfastpaxos.Acceptor.Clear.{IsNotLater, IsClear}
use libfastpaxos.Acceptor.Firm.{IsAbove, NoAny, IsFine, IsFirm, prepare-IsFirm, accept-IsFirm}

-- No request of the message takes the slot of `iid` for a later instance.
abbrev pub IsBeside : ℤ → PaxosMsg → Type 0
IsBeside iid (prepare_batch ms) = All (λ m. IsNotLater iid m.iid) ms
IsBeside iid (accept m) = IsNotLater iid m.iid
IsBeside iid _ = Unit {0}

module _ {db : Database} (r : IsReliable db) (iid : ℤ) (h_iid : IsIid iid) (b : ℤ)
    (Old : Packet → Type 0) where
  abbrev Firm : Acceptor db → Type 0
  Firm st = IsFirm r iid h_iid b Old st

  -- A learn message of a record that is remembered.
  learn_sent :
      (st : Acceptor db) (rec : AcceptorRecord)
      → Firm st
      → (rec.iid ≡ iid → b ≤ℤ rec.ballot)
      → Firm (send_learn_message st rec)
  unfolding send_learn_message
  learn_sent st rec q f = record {
    ready = record { coherent = q.ready.coherent; measured = inl (refl, refl) };
    clear = record { slots = q.clear.slots };
    bound = q.bound;
    told = All-append (IsFine r iid h_iid b Old) st.sent _ q.told (inr f, tt);
  }

  lsync-IsFirm :
      (st : Acceptor db) (u : Uninit) (id : ℤ) → Firm st → IsIid id → Firm (handle_lsync st u id)
  unfolding handle_lsync
  lsync-IsFirm st u id q h = elim (Bool-cases (eqb_ℤ id slot.iid)) [
    | inl same ↦ rw same (if_both Firm (has_value slot) (learn_sent st slot q (held same)) q)
    | inr other ↦ elim (Bool-cases (ltb_ℤ id slot.iid)) [
      | inr new ↦ rw (other, new) q
      | inl old ↦ rw (other, old, lookup-entry db st.disk u id) (answered (recall r st id) refl)
    ]
  ]
    where
      slot : AcceptorRecord
      slot = st.acceptor_array (get_acc_index id)

      request : PrepareMsg
      request = record { iid = id; ballot = pos 0 }

      known : (d : FlatRecord) → recall r st iid ≡ some d → b ≤ℤ d.ballot
      known d e = subst (λ x. b ≤ℤ ballot_of x) e q.bound

      held : eqb_ℤ id slot.iid ≡ true → slot.iid ≡ iid → b ≤ℤ slot.ballot
      held same e =
          let p = eqb→eq id slot.iid same in
          known (flatten slot)
            (ap (recall r st) (sym (p ∙ e)) ∙ held_instance r st request h q.ready p)

      answered :
          (o : Option FlatRecord)
          → recall r st id ≡ o
          → Firm
              (elim (elim o as (λ _. Option AcceptorRecord) [
                | none ↦ none
                | some d ↦ some (unflatten u d)
              ]) [ some old ↦ send_learn_message st old | none ↦ st ])
      answered none e = q
      answered (some d) e =
          let named = (q.ready.coherent.behind id d h e).1 in
          learn_sent st (unflatten u d) q
            (λ p. known d (ap (recall r st) (sym (sym named ∙ p)) ∙ e))

  lsyncs-IsFirm :
      (ids : List ℤ) (st : Acceptor db) (u : ℤ → Uninit)
      → Firm st
      → All IsIid ids
      → Firm (handle_batch_lsync st u ids)
  unfolding handle_batch_lsync
  lsyncs-IsFirm [] st u q h = q
  lsyncs-IsFirm (id ∷ ids) st u q h =
      lsyncs-IsFirm ids (handle_lsync st (u id) id) u (lsync-IsFirm st (u id) id q h.0) h.1

  prepares-IsFirm :
      (ms : List PrepareMsg) (st : Acceptor db) (u : ℤ → Uninit)
      → Firm st
      → All (λ m. IsIid m.iid × (minus_one <ℤ m.ballot)) ms
      → All (λ m. IsNotLater iid m.iid) ms
      → Firm (prepare_all st u ms)
  unfolding prepare_all
  prepares-IsFirm [] st u q h near = q
  prepares-IsFirm (m ∷ ms) st u q h near =
      prepares-IsFirm ms (handle_prepare st (u m.iid) m) u
        (prepare-IsFirm r iid h_iid b Old st (u m.iid) m q h.0.0 h.0.1 near.0) h.1 near.1

  flush-IsFirm : (st : Acceptor db) → Firm st → Firm (flush_promises (synced st))
  unfolding flush_promises disk_force_syncrony
  flush-IsFirm st q = record {
    ready = record { coherent = q.ready.coherent; measured = inl (refl, refl) };
    clear = record { slots = q.clear.slots };
    bound = q.bound;
    told = All-append (IsFine r iid h_iid b Old) st.sent _ q.told (inr tt, tt);
  }

  batch-IsFirm :
      (ms : List PrepareMsg) (st : Acceptor db) (u : ℤ → Uninit)
      → Firm st
      → All (λ m. IsIid m.iid × (minus_one <ℤ m.ballot)) ms
      → All (λ m. IsNotLater iid m.iid) ms
      → Firm (handle_prepare_batch st u ms)
  unfolding handle_prepare_batch
  batch-IsFirm ms st u q h near =
      let st₀ = record st { send_buffer = []; send_buffer_size = promise_headers } in
      let q₀ : Firm st₀ = record {
        ready = record { coherent = q.ready.coherent; measured = inr refl };
        clear = record { slots = q.clear.slots };
        bound = q.bound;
        told = q.told;
      } in
      let st' = prepare_all st₀ u ms in
      let q' = prepares-IsFirm ms st₀ u q₀ h near in
      if_both Firm (ltb 0 (length st'.send_buffer)) (flush-IsFirm st' q') q'

  message-IsFirm :
      (st : Acceptor db) (u : ℤ → Uninit) (m : PaxosMsg)
      → Firm st
      → IsProper m
      → NoAny m
      → IsBeside iid m
      → (st' : Acceptor db) × (handle_message st u m ≡ some st') × Firm st'
  unfolding handle_message
  message-IsFirm st u (prepare_batch ms) q h n near = (_, refl, batch-IsFirm ms st u q h near)
  message-IsFirm st u (accept m) q h n near =
      (_, refl, accept-IsFirm r iid h_iid b Old st (u m.iid) m q h near)
  message-IsFirm st u (learner_sync ids) q h n near = (_, refl, lsyncs-IsFirm ids st u q h)
  message-IsFirm st u (anyval ballot ids) q h n near = absurd n
  message-IsFirm st u (promise_batch _ _) q h n near = (st, refl, q)
  message-IsFirm st u (learn _) q h n near = (st, refl, q)
  message-IsFirm st u (unknown_type _) q h n near = (st, refl, q)

-- One message after the other, each with what `malloc` finds while it is handled.
module _ {db : Database} where
  unfoldable pub run : Acceptor db → List ((ℤ → Uninit) × PaxosMsg) → Option (Acceptor db)
  run st [] = some st
  run st ((u, m) ∷ events) = elim (handle_message st u m) [
    | none ↦ none
    | some st' ↦ run st' events
  ]

abbrev pub IsOrderly : ℤ → (ℤ → Uninit) × PaxosMsg → Type 0
IsOrderly iid event = IsProper event.1 × NoAny event.1 × IsBeside iid event.1

module _ {db : Database} (r : IsReliable db) where
  run-IsFirm :
      (iid : ℤ) (h : IsIid iid) (b : ℤ) (Old : Packet → Type 0)
      (events : List ((ℤ → Uninit) × PaxosMsg)) (st : Acceptor db)
      → IsFirm r iid h b Old st
      → All (IsOrderly iid) events
      → (st' : Acceptor db) × (run st events ≡ some st') × IsFirm r iid h b Old st'
  unfolding run
  run-IsFirm iid h b Old [] st q hs = (st, refl, q)
  run-IsFirm iid h b Old ((u, m) ∷ events) st q hs =
      let (st₁, e, q₁) = message-IsFirm r iid h b Old st u m q hs.0.0 hs.0.1 hs.0.2 in
      let (st₂, f, q₂) = run-IsFirm iid h b Old events st₁ q₁ hs.1 in (st₂, rw (e, run) f, q₂)

  each_is_in : (ps : List Packet) → All (λ p. Memᴰ p ps) ps
  each_is_in [] = tt
  each_is_in (p ∷ ps) = (Memᴰ.head refl, All-map (λ x h. Memᴰ.tail h) ps (each_is_in ps))

  -- Once an acceptor has promised the ballot `b` for an instance, it handles any run of messages and
  -- holds by the promise to the end: it never remembers a lower ballot of the instance, and no learn
  -- message that it sends for it states one. The conditions: the run has no any message, and at the
  -- start no slot of the array has an any flag; and neither at the start nor by a request of the run
  -- does a later instance take the slot of this one. Nothing is assumed of what `malloc` returns.
  pub promise_kept :
      (iid : ℤ) (b : ℤ) (events : List ((ℤ → Uninit) × PaxosMsg)) (st : Acceptor db)
      → IsIid iid
      → IsReady r st
      → IsClear iid st
      → b ≤ℤ ballot_of (recall r st iid)
      → All (IsOrderly iid) events
      → (st' : Acceptor db) × (run st events ≡ some st')
        × IsReady r st'
        × (b ≤ℤ ballot_of (recall r st' iid))
        × All (λ p. Memᴰ p st.sent ⊎ IsAbove iid b p.msg) st'.sent
  promise_kept iid b events st h ready clear bound hs =
      let q : IsFirm r iid h b (λ p. Memᴰ p st.sent) st = record {
        ready = ready;
        clear = clear;
        bound = bound;
        told = All-map (λ p m. inl m) st.sent (each_is_in st.sent);
      } in
      let (st', e, q') = run-IsFirm iid h b (λ p. Memᴰ p st.sent) events st q hs in
      (st', e, q'.ready, q'.bound, q'.told)
