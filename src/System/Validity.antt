-- ===== src/System/Validity.antt =====
-- Whatever a learner delivers was asked for.
use mathlib.Core.List.{Memᴰ}
use mathlib.Core.Option.{some-injective}
use libfastpaxos.Base.{
  ℕ, ◌≡◌, ◌∙◌, sym, ap, subst, take, inl, inr, ◌⊎◌, All, All-map, List, [], ◌∷◌, update_all,
}
use libfastpaxos.Base.Int.{pos}
use libfastpaxos.Message.{
  AcceptMsg, LearnMsg, PaxosMsg, Packet, prepare_batch, accept, learner_sync, promise_batch, learn,
  anyval, unknown_type,
}
use libfastpaxos.Disk.{Database, IsReliable}
use libfastpaxos.Disk.Entries.{take-take}
use libfastpaxos.Acceptor.Source.{From, IsSourced, IsTruthful}
use libfastpaxos.Acceptor.Runs.{message-IsTruthful, init-IsTruthful}
use libfastpaxos.Learner.{Delivery, copy_learn}
use libfastpaxos.Learner.Handle.{IsSettled, init-IsSettled, handle_learner_msg-Settles}
use libfastpaxos.Learner.Evidence.{Backed, IsSound}
use libfastpaxos.Learner.Votes.{IsHeard, init-IsSound, handle_learner_msg-Keeps}
use libfastpaxos.System.Network.{Group, Reached, started, asked, told}

All-Memᴰ : (P : Packet → Type 0) (ps : List Packet) (p : Packet) → All P ps → Memᴰ p ps → P p
All-Memᴰ P [] p h m = elim m [ ]
All-Memᴰ P (x ∷ xs) p h (Memᴰ.head e) = subst P (sym e) h.0
All-Memᴰ P (x ∷ xs) p h (Memᴰ.tail m) = All-Memᴰ P xs p h.1 m

module _ {db : Database} (r : IsReliable db) (Asked : AcceptMsg → Type 0) where
  -- A learn message whose value someone asked for.
  abbrev Sourced : LearnMsg → Type 0
  Sourced m = From Asked m.iid m.value_size m.value

  -- The learner copies as many bytes as the message says.
  copy-Sourced : (m : LearnMsg) → Sourced m → Sourced (copy_learn m)
  copy-Sourced m (inl e) = inl e
  copy-Sourced m (inr (a, h, i, n, v)) = inr (a, h, i, n, sym copied)
    where
      copied : take m.value_size m.value ≡ take a.value_size a.value
      copied =
          ap (take m.value_size) (sym v)
          ∙ (ap (λ k. take k (take a.value_size a.value)) (sym n) ∙ take-take a.value_size a.value)

  IsSourced-IsHeard : (m : PaxosMsg) → IsSourced Asked m → IsHeard Sourced m
  IsSourced-IsHeard (learn m) h = copy-Sourced m h
  IsSourced-IsHeard (prepare_batch _) h = tt
  IsSourced-IsHeard (accept _) h = tt
  IsSourced-IsHeard (learner_sync _) h = tt
  IsSourced-IsHeard (promise_batch _ _) h = tt
  IsSourced-IsHeard (anyval _ _) h = tt
  IsSourced-IsHeard (unknown_type _) h = tt

  record IsGood (g : Group db) : Type 0 where
    acceptors : (k : ℕ) → IsTruthful r Asked (g.acceptors k)
    settled : IsSettled g.learner
    sound : IsSound Sourced g.learner

  Reached-IsGood : (g : Group db) → Reached db Asked g → IsGood g
  Reached-IsGood _ started = record {
    acceptors = λ k. init-IsTruthful r Asked (pos k);
    settled = init-IsSettled;
    sound = init-IsSound Sourced;
  }
  Reached-IsGood _ (asked g k u m st reached proper a e) =
      let q = Reached-IsGood g reached in
      record {
        acceptors =
            update_all (λ _ x. IsTruthful r Asked x) g.acceptors k st
              (message-IsTruthful r Asked (g.acceptors k) u m st (q.acceptors k) proper a e)
              (λ j _. q.acceptors j);
        settled = q.settled;
        sound = q.sound;
      }
  Reached-IsGood _ (told g k p l reached mem e) =
      let q = Reached-IsGood g reached in
      let h =
        All-Memᴰ (λ p. IsSourced Asked p.msg) (g.acceptors k).sent p (q.acceptors k).told mem in
      let (l', e', s) = handle_learner_msg-Settles g.learner p.msg q.settled in
      record {
        acceptors = q.acceptors;
        settled = subst IsSettled (some-injective _ _ (sym e' ∙ e)) s;
        sound =
            handle_learner_msg-Keeps Sourced g.learner p.msg q.settled q.sound
              (IsSourced-IsHeard p.msg h) l e;
      }

  -- What a delivery is owed to.
  abbrev pub WasAsked : Delivery → Type 0
  WasAsked d =
      (d.size ≡ pos 0)
      ⊎ ((a : AcceptMsg) × Asked a
          × (a.iid ≡ d.iid)
          × (pos a.value_size ≡ d.size)
          × (take a.value_size a.value ≡ d.value))

  -- Whatever messages the acceptors handle and whichever of their packets reach a learner, in any
  -- order and any number of times: each value that it has delivered for an instance is that of an
  -- accept request for the instance that reached an acceptor, or is empty.
  pub delivered-WasAsked : (g : Group db) → Reached db Asked g → All WasAsked g.learner.delivered
  delivered-WasAsked g reached =
      All-map owed g.learner.delivered (Reached-IsGood g reached).sound.log
    where
      owed : (d : Delivery) → Backed Sourced d → WasAsked d
      owed d b = go b.heard
        where
          go : Sourced b.msg → WasAsked d
          go (inl e) = inl (sym b.msg_size ∙ ap pos e)
          go (inr (a, h, i, n, v)) =
              inr (a, h, i ∙ b.msg_iid, ap pos n ∙ b.msg_size, v ∙ b.msg_value)
