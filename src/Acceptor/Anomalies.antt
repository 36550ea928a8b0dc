-- ===== src/Acceptor/Anomalies.antt =====
-- Classes of runs of lib/acceptor.c that leave the rule of Paxos: the any flag of a record survives
-- the reuse of its slot, an any message faults, and a learn message that answers a learner states
-- the promised ballot.
use mathlib.Core.Bool.{false≢true}
use libfastpaxos.Base.{
  ◌+◌, ◌≡◌, ◌↔◌, refl, ◌∙◌, sym, ap, true, false, [], ◌∷◌, ◌++◌, none, some, arith, take,
  update_self, Bool-cases, Option-cases, inl, inr,
}
use libfastpaxos.Base.Int.{ℤ, minus_one, ◌<ℤ◌, eqb_ℤ, ltb_ℤ, leb_ℤ, eqb_refl}
use libfastpaxos.Config.{get_acc_index}
use libfastpaxos.Message.{
  PrepareMsg, AcceptMsg, learn, Packet, learners_net, sizeof_learn_msg, sizeof_paxos_msg,
}
use libfastpaxos.Disk.{Database, IsReliable, AcceptorRecord, Uninit, bytes}
use libfastpaxos.Disk.Entries.{IsIid, entry, lookup-entry}
use libfastpaxos.Acceptor.State.{Acceptor, written, put_slot, send_learn_message}
use libfastpaxos.Acceptor.Prepare.{renewed, handle_prepare}
use libfastpaxos.Acceptor.Accept.{handle_accept, handle_lsync, has_value}
use libfastpaxos.Acceptor.Anyval.{handle_anyval}
use libfastpaxos.Acceptor.Buffer.{add_promise-keeps}
use libfastpaxos.Acceptor.Spec.{voted}
use libfastpaxos.Acceptor.Promise.{recall, IsReady, Answers, handle_prepare-Answers}
use libfastpaxos.Acceptor.Vote.{holder, allows, handle_accept-Votes}

-- The record in the array at an instance's index.
abbrev pub slot_of : {db : Database} → Acceptor db → ℤ → AcceptorRecord
slot_of st iid = st.acceptor_array (get_acc_index iid)

module _ {db : Database} where
  some≢none : (x : Acceptor db) → some x ≡ none → ⊥
  some≢none x e = cc

  -- A set flag lets any accept request for the instance through.
  flagged-allows :
      (st : Acceptor db) (u : Uninit) (a : AcceptMsg)
      → (slot_of st a.iid).iid ≡ a.iid
      → (slot_of st a.iid).any_enabled ≡ true
      → allows (holder st u a.iid) a ≡ true
  flagged-allows st u a same flag =
      let held : eqb_ℤ a.iid (slot_of st a.iid).iid ≡ true = rw same (eqb_refl a.iid) in
      rw (held, flag) refl

  -- The slot after a prepare request for a later instance.
  slot_of-new :
      (st : Acceptor db) (u : Uninit) (m : PrepareMsg)
      → (slot_of st m.iid).iid <ℤ m.iid
      → slot_of (handle_prepare st u m) m.iid ≡ renewed (slot_of st m.iid) m
  unfolding handle_prepare
  slot_of-new st u m new =
      let late : ltb_ℤ (slot_of st m.iid).iid m.iid ≡ true = ground arith in
      let rec = renewed (slot_of st m.iid) m in
      rw late (
        ap (λ arr. arr (get_acc_index m.iid))
          (add_promise-keeps (written (put_slot st (get_acc_index m.iid) rec) rec) rec).0
        ∙ update_self st.acceptor_array (get_acc_index m.iid) rec)

  -- The slot after a prepare request that raises the ballot of the instance it holds.
  slot_of-raised :
      (st : Acceptor db) (u : Uninit) (m : PrepareMsg)
      → (slot_of st m.iid).iid ≡ m.iid
      → (slot_of st m.iid).ballot <ℤ m.ballot
      → slot_of (handle_prepare st u m) m.iid ≡ record (slot_of st m.iid) { ballot = m.ballot }
  unfolding handle_prepare
  slot_of-raised st u m same higher =
      let early : ltb_ℤ (slot_of st m.iid).iid m.iid ≡ false = rw same (ground arith) in
      let held : eqb_ℤ m.iid (slot_of st m.iid).iid ≡ true = rw same (eqb_refl m.iid) in
      let high : leb_ℤ m.ballot (slot_of st m.iid).ballot ≡ false = ground arith in
      let rec : AcceptorRecord = record (slot_of st m.iid) { ballot = m.ballot } in
      rw (early, held, high)
        (ap (λ arr. arr (get_acc_index m.iid))
            (add_promise-keeps (written (put_slot st (get_acc_index m.iid) rec) rec) rec).0
          ∙ update_self st.acceptor_array (get_acc_index m.iid) rec)

  -- What `handle_lsync` sends for a record in the array.
  abbrev pub lsync_answer : Acceptor db → AcceptorRecord → Packet
  lsync_answer st rec = record {
    net = learners_net;
    msg = learn (record {
      acceptor_id = st.acceptor_id;
      iid = rec.iid;
      ballot = rec.ballot;
      proposer_id = rec.proposer_id;
      value_size = rec.value_size;
      value = take rec.value_size (bytes rec.value);
    });
    size = sizeof_learn_msg + sizeof_paxos_msg + rec.value_size;
  }

  handle_lsync-held :
      (st : Acceptor db) (u : Uninit) (iid : ℤ) (rec : AcceptorRecord)
      → slot_of st iid ≡ rec
      → rec.iid ≡ iid
      → has_value rec ≡ true
      → (handle_lsync st u iid).sent ≡ st.sent ++ (lsync_answer st rec ∷ [])
  unfolding handle_lsync send_learn_message
  handle_lsync-held st u iid rec at same v =
      rw at (let held : eqb_ℤ iid rec.iid ≡ true = rw same (eqb_refl iid) in rw (held, v) refl)

  -- The answer to a learner states the ballot last promised: an acceptor that voted with one ballot
  -- and then promised a higher one, with no vote of that ballot, tells a learner that asks for the
  -- instance that it voted for its old value with the promised ballot.
  pub handle_lsync_overstates :
      (st : Acceptor db) (u u' : Uninit) (m : PrepareMsg)
      → (slot_of st m.iid).iid ≡ m.iid
      → (slot_of st m.iid).ballot <ℤ m.ballot
      → has_value (slot_of st m.iid) ≡ true
      → let st' = handle_prepare st u m in
        (handle_lsync st' u' m.iid).sent
        ≡ st'.sent ++ (lsync_answer st' (record (slot_of st m.iid) { ballot = m.ballot }) ∷ [])
  handle_lsync_overstates st u u' m same higher v =
      handle_lsync-held (handle_prepare st u m) u' m.iid
        (record (slot_of st m.iid) { ballot = m.ballot }) (slot_of-raised st u m same higher) same v

  -- `handle_anyval` faults exactly on an instance that is neither in the array nor on disk while
  -- its slot holds a later one.
  pub handle_anyval_faults :
      (st : Acceptor db) (u : Uninit) (ballot iid : ℤ)
      → (handle_anyval st u ballot iid ≡ none)
        ↔ ((iid <ℤ (slot_of st iid).iid) × (entry db st.disk iid ≡ none))
  unfolding handle_anyval
  handle_anyval_faults st u ballot iid = (to, from)
    where
      slot : AcceptorRecord
      slot = slot_of st iid

      to : handle_anyval st u ballot iid ≡ none → (iid <ℤ slot.iid) × (entry db st.disk iid ≡ none)
      to e = elim (Bool-cases (eqb_ℤ iid slot.iid)) [
        | inl held ↦ absurd (some≢none _ (rw held at e))
        | inr other ↦ elim (Bool-cases (ltb_ℤ slot.iid iid)) [
          | inl new ↦ absurd (some≢none _ (rw (other, new) at e))
          | inr old ↦ elim (Option-cases (entry db st.disk iid)) [
            | inl n ↦ (ground arith, n)
            | inr (d, q) ↦
                absurd (some≢none _ (rw (other, old, lookup-entry db st.disk u iid, q) at e))
          ]
        ]
      ]

      from :
          (iid <ℤ slot.iid) × (entry db st.disk iid ≡ none) → handle_anyval st u ballot iid ≡ none
      from (lt, e) =
          let other : eqb_ℤ iid slot.iid ≡ false = ground arith in
          let old : ltb_ℤ slot.iid iid ≡ false = ground arith in
          rw (other, old, lookup-entry db st.disk u iid, e) refl

module _ {db : Database} (r : IsReliable db) where
  -- The any flag of an old instance survives in its slot: in a well-formed acceptor whose slot holds
  -- an earlier instance with the flag set, after a prepare request for a new instance, whatever its
  -- ballot above -1, the next accept request for that instance is a vote, one with a ballot below
  -- the promised one included, though no any message named the instance.
  pub any_flag_leaks :
      (st : Acceptor db) (m : PrepareMsg) (a : AcceptMsg) (u u' : Uninit)
      → IsIid m.iid
      → IsReady r st
      → minus_one <ℤ m.ballot
      → (slot_of st m.iid).iid <ℤ m.iid
      → (slot_of st m.iid).any_enabled ≡ true
      → a.iid ≡ m.iid
      → recall r (handle_accept (handle_prepare st u m) u' a) a.iid ≡ some (voted a)
  any_flag_leaks st m a u u' h ready b new flag same =
      elim (handle_accept-Votes r st' a ha ans.ready u') [
        | inl (_, v) ↦ v.own
        | inr (refused, _) ↦ absurd (
            false≢true (
              sym refused
              ∙ flagged-allows st' u' a (ap (λ x. x.iid) at ∙ sym same)
                  (ap (λ x. x.any_enabled) at ∙ flag)))
      ]
    where
      st' : Acceptor db
      st' = handle_prepare st u m

      ans : Answers r st m st'
      ans = handle_prepare-Answers r st m h ready u b

      ha : IsIid a.iid
      ha = rw same h

      at : slot_of st' a.iid ≡ renewed (slot_of st m.iid) m
      at = ap (slot_of st') same ∙ slot_of-new st u m new
