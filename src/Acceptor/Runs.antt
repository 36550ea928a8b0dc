-- ===== src/Acceptor/Runs.antt =====
-- Runs of an acceptor: the messages of lib/acceptor.c in any order, batch by batch.
use libfastpaxos.Base.{
  ◌≡◌, refl, subst, List, [], ◌∷◌, Option, none, some, take, Bool-cases, Option-cases, inl, inr,
  All, All-append, if_both, ltb, length,
}
use mathlib.Core.Option.{some-injective}
use libfastpaxos.Base.Int.{ℤ, pos, minus_one, ◌<ℤ◌, eqb_ℤ, ltb_ℤ, eqb→eq}
use libfastpaxos.Config.{get_acc_index}
use libfastpaxos.Message.{
  PrepareMsg, AcceptMsg, PaxosMsg, prepare_batch, accept, learner_sync, promise_batch, learn,
  anyval, unknown_type,
}
use libfastpaxos.Disk.{
  Database, IsReliable, AcceptorRecord, Uninit, flatten, unflatten, bytes, disk_lookup_record,
  disk_force_syncrony,
}
use libfastpaxos.Disk.Entries.{IsIid, entry-created, lookup-entry}
use libfastpaxos.Acceptor.State.{
  Acceptor, promise_headers, flush_promises, synced, send_learn_message, acceptor_init,
}
use libfastpaxos.Acceptor.Prepare.{handle_prepare, prepare_all, handle_prepare_batch}
use libfastpaxos.Acceptor.Accept.{handle_lsync, handle_batch_lsync, has_value}
use libfastpaxos.Acceptor.Anyval.{handle_anyval, handle_batch_anyval, handle_message}
use libfastpaxos.Acceptor.Cache.{init-IsCoherent}
use libfastpaxos.Acceptor.Promise.{recall, held_instance}
use libfastpaxos.Acceptor.Source.{
  From, IsSourced, IsTruthful, prepare-IsTruthful, accept-IsTruthful, anyval-IsTruthful,
}

-- Instances whose record number is an `int`, and ballots that are not negative.
abbrev pub IsProper : PaxosMsg → Type 0
IsProper (prepare_batch ms) = All (λ m. IsIid m.iid × (minus_one <ℤ m.ballot)) ms
IsProper (accept m) = IsIid m.iid
IsProper (learner_sync ids) = All IsIid ids
IsProper (anyval ballot ids) = All IsIid ids
IsProper _ = Unit {0}

abbrev pub IsAsked : (AcceptMsg → Type 0) → PaxosMsg → Type 0
IsAsked Asked (accept m) = Asked m
IsAsked Asked _ = Unit {0}

module _ {db : Database} (r : IsReliable db) (Asked : AcceptMsg → Type 0) where
  learn_sent :
      (st : Acceptor db) (rec : AcceptorRecord)
      → IsTruthful r Asked st
      → From Asked rec.iid rec.value_size (take rec.value_size (bytes rec.value))
      → IsTruthful r Asked (send_learn_message st rec)
  unfolding send_learn_message
  learn_sent st rec q f = record {
    ready = record { coherent = q.ready.coherent; measured = inl (refl, refl) };
    memory = q.memory;
    told = All-append (λ p. IsSourced Asked p.msg) st.sent _ q.told (f, tt);
  }

  lsync-IsTruthful :
      (st : Acceptor db) (u : Uninit) (iid : ℤ)
      → IsTruthful r Asked st
      → IsIid iid
      → IsTruthful r Asked (handle_lsync st u iid)
  unfolding handle_lsync
  lsync-IsTruthful st u iid q h = elim (Bool-cases (eqb_ℤ iid slot.iid)) [
    | inl same ↦ rw same (
        if_both (IsTruthful r Asked) (has_value slot)
          (learn_sent st slot q (
            q.memory iid (flatten slot) h
              (held_instance r st request h q.ready (eqb→eq iid slot.iid same))))
          q)
    | inr other ↦ elim (Bool-cases (ltb_ℤ iid slot.iid)) [
      | inr new ↦ rw (other, new) q
      | inl old ↦ rw (other, old) (answered (disk_lookup_record db st.disk u iid) on_disk)
    ]
  ]
    where
      slot : AcceptorRecord
      slot = st.acceptor_array (get_acc_index iid)

      request : PrepareMsg
      request = record { iid = iid; ballot = pos 0 }

      on_disk :
          (rec : AcceptorRecord)
          → disk_lookup_record db st.disk u iid ≡ some rec
          → From Asked rec.iid rec.value_size (take rec.value_size (bytes rec.value))
      on_disk rec f = elim (Option-cases (recall r st iid)) [
        | inl n ↦
            let g : none ≡ some rec = rw (lookup-entry db st.disk u iid, n) at f in absurd (cc g)
        | inr (d, p) ↦
            let g : some (unflatten u d) ≡ some rec = rw (lookup-entry db st.disk u iid, p) at f in
            let whole = (q.ready.coherent.behind iid d h p).2 in
            subst (λ x. From Asked x.iid x.value_size (take x.value_size (bytes x.value)))
              (some-injective _ _ g) (rw (whole, whole) (q.memory iid d h p))
      ]

      answered :
          (o : Option AcceptorRecord)
          → ((rec : AcceptorRecord)
              → o ≡ some rec
              → From Asked rec.iid rec.value_size (take rec.value_size (bytes rec.value)))
          → IsTruthful r Asked (elim o [ some old ↦ send_learn_message st old | none ↦ st ])
      answered none f = q
      answered (some rec) f = learn_sent st rec q (f rec refl)

  lsyncs-IsTruthful :
      (ids : List ℤ) (st : Acceptor db) (u : ℤ → Uninit)
      → IsTruthful r Asked st
      → All IsIid ids
      → IsTruthful r Asked (handle_batch_lsync st u ids)
  unfolding handle_batch_lsync
  lsyncs-IsTruthful [] st u q h = q
  lsyncs-IsTruthful (id ∷ ids) st u q h =
      lsyncs-IsTruthful ids (handle_lsync st (u id) id) u (lsync-IsTruthful st (u id) id q h.0) h.1

  anyvals-IsTruthful :
      (ids : List ℤ) (st : Acceptor db) (u : ℤ → Uninit) (ballot : ℤ) (st' : Acceptor db)
      → IsTruthful r Asked st
      → All IsIid ids
      → handle_batch_anyval st u ballot ids ≡ some st'
      → IsTruthful r Asked st'
  unfolding handle_batch_anyval
  anyvals-IsTruthful [] st u ballot st' q h e = subst (IsTruthful r Asked) (some-injective _ _ e) q
  anyvals-IsTruthful (id ∷ ids) st u ballot st' q h e =
      elim (Option-cases (handle_anyval st (u id) ballot id)) [
        | inl f ↦ absurd (let p : none ≡ some st' = rw (f, handle_batch_anyval) at e in cc p)
        | inr (st₁, f) ↦
            anyvals-IsTruthful ids st₁ u ballot st'
              (anyval-IsTruthful r Asked st (u id) ballot id st₁ q h.0 f) h.1
              (rw (f, handle_batch_anyval) at e)
      ]

  prepares-IsTruthful :
      (ms : List PrepareMsg) (st : Acceptor db) (u : ℤ → Uninit)
      → IsTruthful r Asked st
      → All (λ m. IsIid m.iid × (minus_one <ℤ m.ballot)) ms
      → IsTruthful r Asked (prepare_all st u ms)
  unfolding prepare_all
  prepares-IsTruthful [] st u q h = q
  prepares-IsTruthful (m ∷ ms) st u q h =
      prepares-IsTruthful ms (handle_prepare st (u m.iid) m) u
        (prepare-IsTruthful r Asked st (u m.iid) m q h.0.0 h.0.1) h.1

  flush-IsTruthful :
      (st : Acceptor db) → IsTruthful r Asked st → IsTruthful r Asked (flush_promises (synced st))
  unfolding flush_promises disk_force_syncrony
  flush-IsTruthful st q = record {
    ready = record { coherent = q.ready.coherent; measured = inl (refl, refl) };
    memory = q.memory;
    told = All-append (λ p. IsSourced Asked p.msg) st.sent _ q.told (tt, tt);
  }

  batch-IsTruthful :
      (ms : List PrepareMsg) (st : Acceptor db) (u : ℤ → Uninit)
      → IsTruthful r Asked st
      → All (λ m. IsIid m.iid × (minus_one <ℤ m.ballot)) ms
      → IsTruthful r Asked (handle_prepare_batch st u ms)
  unfolding handle_prepare_batch
  batch-IsTruthful ms st u q h =
      let st₀ = record st { send_buffer = []; send_buffer_size = promise_headers } in
      let q₀ : IsTruthful r Asked st₀ = record {
        ready = record { coherent = q.ready.coherent; measured = inr refl };
        memory = q.memory;
        told = q.told;
      } in
      let st' = prepare_all st₀ u ms in
      let q' = prepares-IsTruthful ms st₀ u q₀ h in
      if_both (IsTruthful r Asked) (ltb 0 (length st'.send_buffer)) (flush-IsTruthful st' q') q'

  -- One message of any kind, if it is handled: it faults only where an any message does.
  pub message-IsTruthful :
      (st : Acceptor db) (u : ℤ → Uninit) (m : PaxosMsg) (st' : Acceptor db)
      → IsTruthful r Asked st
      → IsProper m
      → IsAsked Asked m
      → handle_message st u m ≡ some st'
      → IsTruthful r Asked st'
  unfolding handle_message
  message-IsTruthful st u (prepare_batch ms) st' q h a e =
      subst (IsTruthful r Asked) (some-injective _ _ e) (batch-IsTruthful ms st u q h)
  message-IsTruthful st u (accept m) st' q h a e =
      subst (IsTruthful r Asked) (some-injective _ _ e)
        (accept-IsTruthful r Asked st (u m.iid) m q h a)
  message-IsTruthful st u (learner_sync ids) st' q h a e =
      subst (IsTruthful r Asked) (some-injective _ _ e) (lsyncs-IsTruthful ids st u q h)
  message-IsTruthful st u (anyval ballot ids) st' q h a e =
      anyvals-IsTruthful ids st u ballot st' q h e
  message-IsTruthful st u (promise_batch _ _) st' q h a e =
      subst (IsTruthful r Asked) (some-injective _ _ e) q
  message-IsTruthful st u (learn _) st' q h a e =
      subst (IsTruthful r Asked) (some-injective _ _ e) q
  message-IsTruthful st u (unknown_type _) st' q h a e =
      subst (IsTruthful r Asked) (some-injective _ _ e) q

  pub init-IsTruthful : (id : ℤ) → IsTruthful r Asked (acceptor_init id)
  init-IsTruthful id = record {
    ready = record { coherent = init-IsCoherent db id r; measured = inl (refl, refl) };
    memory = λ j d h e. absurd (cc (entry-created db j r));
    told = tt;
  }
