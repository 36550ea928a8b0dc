-- ===== src/Tests/SystemRuns.antt =====
-- Three acceptors that are asked for one value, and a learner that hears them.
use mathlib.Core.List.{Memᴰ}
use libfastpaxos.Base.{ℕ, ◌≡◌, refl, List, [], ◌∷◌, Option, none, some, arith, All, update}
use libfastpaxos.Base.Int.{pos, ◌+ℤ◌}
use libfastpaxos.Config.{get_acc_index, get_lea_index}
use libfastpaxos.Message.{AcceptMsg, accept, Packet}
use libfastpaxos.Acceptor.State.{Acceptor}
use libfastpaxos.Acceptor.State.{send_learn_message}
use libfastpaxos.Acceptor.Accept.{handle_accept, accept_and_learn}
use libfastpaxos.Disk.{disk_update_record, disk_lookup_record}
use libfastpaxos.Acceptor.Anyval.{handle_message}
use libfastpaxos.Learner.{
  Learner, init, handle_learner_msg, handle_learn_msg, close_and_deliver, update_record,
  add_learn_to_record, check_quorum, deliver_values,
}
use libfastpaxos.System.Network.{Group, new_group, Reached, started, asked, told}
use libfastpaxos.System.Validity.{WasAsked, delivered-WasAsked}
use libfastpaxos.Tests.AcceptorRuns.{memory_db, memory_db-IsReliable, uninit}

abbrev request : AcceptMsg
request = record {
  iid = pos 0;
  ballot = pos 21;
  value_size = 2;
  proposer_id = pos 1;
  value = 7 ∷ 8 ∷ 9 ∷ [];
}

abbrev IsRequest : AcceptMsg → Type 0
IsRequest a = a ≡ request

abbrev ask : Group memory_db → ℕ → Group memory_db
ask g k = elim (handle_message (g.acceptors k) (λ _. uninit) (accept request)) [
  | none ↦ g
  | some st ↦ record g { acceptors = update g.acceptors k st }
]

asks :
    (g : Group memory_db) (k : ℕ)
    → Reached memory_db IsRequest g
    → Reached memory_db IsRequest (ask g k)
asks g k r = next (handle_message (g.acceptors k) (λ _. uninit) (accept request)) refl
  where
    next :
        (o : Option (Acceptor memory_db))
        → handle_message (g.acceptors k) (λ _. uninit) (accept request) ≡ o
        → Reached memory_db IsRequest
            (elim o [ none ↦ g | some st ↦ record g { acceptors = update g.acceptors k st } ])
    next none e = r
    next (some st) e = asked g k (λ _. uninit) (accept request) st r (omega arith) refl e

-- The learner hears the first packet of an acceptor.
abbrev hear_packet : Group memory_db → Packet → Group memory_db
hear_packet g p = elim (handle_learner_msg g.learner p.msg) [
  | none ↦ g
  | some l ↦ record g { learner = l }
]

abbrev hear_first : Group memory_db → List Packet → Group memory_db
hear_first g [] = g
hear_first g (p ∷ ps) = hear_packet g p

abbrev tell : Group memory_db → ℕ → Group memory_db
tell g k = hear_first g (g.acceptors k).sent

tells :
    (g : Group memory_db) (k : ℕ)
    → Reached memory_db IsRequest g
    → Reached memory_db IsRequest (tell g k)
tells g k r = first (g.acceptors k).sent refl
  where
    heard :
        (p : Packet) (o : Option Learner)
        → Memᴰ p (g.acceptors k).sent
        → handle_learner_msg g.learner p.msg ≡ o
        → Reached memory_db IsRequest (elim o [ none ↦ g | some l ↦ record g { learner = l } ])
    heard p none m e = r
    heard p (some l) m e = told g k p l r m e

    first :
        (ps : List Packet)
        → (g.acceptors k).sent ≡ ps
        → Reached memory_db IsRequest (hear_first g ps)
    first [] e = r
    first (p ∷ ps) e = heard p _ (rw e (Memᴰ.head refl)) refl

abbrev voted : Group memory_db
voted = ask (ask (ask (new_group memory_db) 0) 1) 2

abbrev heard_all : Group memory_db
heard_all = tell (tell (tell voted 0) 1) 2

-- The learner delivers the value, which a quorum has voted for.
heard_delivers :
    heard_all.learner.delivered
    ≡ record { value = 7 ∷ 8 ∷ []; size = pos 2; iid = pos 0; ballot = pos 21; proposer_id = pos 1 }
      ∷ []
unfolding handle_message handle_accept accept_and_learn send_learn_message disk_update_record
    disk_lookup_record init close_and_deliver ◌+ℤ◌ handle_learner_msg handle_learn_msg update_record
    get_acc_index get_lea_index add_learn_to_record check_quorum deliver_values
heard_delivers = refl

delivered-WasAsked_example :
    All (WasAsked memory_db-IsReliable IsRequest) heard_all.learner.delivered
delivered-WasAsked_example = delivered-WasAsked memory_db-IsReliable IsRequest heard_all (
    tells (tell (tell voted 0) 1) 2 (
      tells (tell voted 0) 1 (
        tells voted 0 (
          asks (ask (ask (new_group memory_db) 0) 1) 2
            (asks (ask (new_group memory_db) 0) 1 (asks (new_group memory_db) 0 started))))))
