-- ===== src/Leader/OneValue.antt =====
-- lib/leader.c never asks for two values in one ballot, and no two leaders share a ballot.
use libfastpaxos.Base.{ℕ, ◌<◌, ◌≡◌, ◌≢◌, refl, ◌∙◌, sym, ap, subst, true, List, some, All, All-map}
use libfastpaxos.Base.Int.{ℤ, pos, pos_part}
use libfastpaxos.Config.{max_proposers}
use libfastpaxos.Message.{AcceptMsg, PromiseMsg}
use libfastpaxos.Proposer.{proposer_start, value_owner}
use libfastpaxos.Proposer.Ballots.{ballots_name_their_owner}
use libfastpaxos.Leader.State.{Leader, leader_deliver_value}
use libfastpaxos.Leader.Phase1.{leader_start, leader_init, phase1_check_cb}
use libfastpaxos.Leader.Phase2.{leader_handle_promise_msg, phase2_check_cb}
use libfastpaxos.Leader.Ledger.{IsOwn, Apart, accepts, AllApart}
use libfastpaxos.Leader.LedgerPhase1.{IsOrdered, execute_phase1-IsOrdered, phase1_check-IsOrdered}
use libfastpaxos.Leader.LedgerPhase2.{AfterHandler, promise_msg-IsOrdered, phase2_check-IsOrdered}

-- The states of a leader with number `id`: its handlers run in any order, on any messages.
pub data Ran (id : ℤ) : Leader → Type 0 where
  started : Ran id (leader_init id)
  promised :
      (st st' : Leader) (acceptor : ℤ) (proms : List PromiseMsg)
      → Ran id st
      → leader_handle_promise_msg st acceptor proms ≡ some st'
      → Ran id st'
  p1_checked : (st : Leader) → Ran id st → Ran id (phase1_check_cb st)
  p2_checked : (st st' : Leader) → Ran id st → phase2_check_cb st ≡ some st' → Ran id st'
  delivered : (st : Leader) (iid : ℤ) → Ran id st → Ran id (leader_deliver_value st iid)

start-IsOrdered : (id : ℤ) → IsOrdered id (leader_init id)
unfolding leader_init
start-IsOrdered id =
    execute_phase1-IsOrdered (leader_start id) (record {
      ledger = record { placed = λ k. tt; owned = tt; past = tt; apart = tt };
      own = refl;
    })

ran-IsOrdered : (id : ℤ) (st : Leader) → Ran id st → IsOrdered id st
ran-IsOrdered id _ started = start-IsOrdered id
ran-IsOrdered id _ (promised st st' a proms r e) =
    subst (AfterHandler id) e (promise_msg-IsOrdered a proms st (ran-IsOrdered id st r))
ran-IsOrdered id _ (p1_checked st r) = phase1_check-IsOrdered st (ran-IsOrdered id st r)
ran-IsOrdered id _ (p2_checked st st' r e) =
    subst (AfterHandler id) e (phase2_check-IsOrdered st (ran-IsOrdered id st r))
ran-IsOrdered id _ (delivered st iid r) =
    let q = ran-IsOrdered id st r in record { ledger = q.ledger; own = q.own }

-- Whatever messages a leader handles and whatever timers fire, in any order, no two of the accept
-- requests that it sends are for the same instance and ballot.
pub one_value_per_ballot : (id : ℤ) (st : Leader) → Ran id st → AllApart (accepts st.sent)
one_value_per_ballot id st r = (ran-IsOrdered id st r).ledger.apart

owner_of :
    (n : ℕ) (ballot : ℤ) → n < max_proposers → IsOwn (pos n) ballot → value_owner ballot ≡ pos n
owner_of n ballot h (k, e) =
    ap value_owner e ∙ (ballots_name_their_owner k n proposer_start true h).1

-- Two leaders with different numbers below the maximum, each after any run of its handlers and
-- timers, never ask for values of the same instance in the same ballot.
pub leaders-Apart :
    (m n : ℕ) (st st' : Leader)
    → m < max_proposers
    → n < max_proposers
    → m ≢ n
    → Ran (pos m) st
    → Ran (pos n) st'
    → All (λ a. All (Apart a) (accepts st'.sent)) (accepts st.sent)
leaders-Apart m n st st' hm hn differ r r' =
    All-map
      (λ a own.
        All-map (λ b own' same_iid same_ballot. clash a b own own' same_ballot) (accepts st'.sent)
          theirs)
      (accepts st.sent) ours
  where
    ours : All (λ a. IsOwn (pos m) a.ballot) (accepts st.sent)
    ours = (ran-IsOrdered (pos m) st r).ledger.owned

    theirs : All (λ a. IsOwn (pos n) a.ballot) (accepts st'.sent)
    theirs = (ran-IsOrdered (pos n) st' r').ledger.owned

    clash :
        (a b : AcceptMsg)
        → IsOwn (pos m) a.ballot
        → IsOwn (pos n) b.ballot
        → a.ballot ≡ b.ballot
        → ⊥
    clash a b own own' e =
        let p =
          sym (owner_of m a.ballot hm own) ∙ (ap value_owner e ∙ owner_of n b.ballot hn own') in
        differ (ap pos_part p)
