-- ===== src/Leader/LedgerMoves.antt =====
-- How a record of lib/leader.c moves on: it stays past the accept requests that it was past.
use libfastpaxos.Base.{ℕ, suc, ◌≡◌, ◌∙◌, sym, ap, true, arith, inl, inr, ◌||◌, if◌then◌else◌}
use libfastpaxos.Base.Int.{ℤ, ltb_ℤ, ◌≤ℤ◌, ◌<ℤ◌}
use libfastpaxos.Config.{ballot_next}
use libfastpaxos.Message.{AcceptMsg}
use libfastpaxos.Leader.State.{
  StatusFlag, p1_new, p1_pending, p1_ready, p1_finished, is_new, is_finished, ProposerRecord,
}
use libfastpaxos.Leader.Ledger.{PastAs, PlacedAs}

-- The next ballot of an own record is its own too.
pub next_placed :
    (id : ℤ) (s : StatusFlag) (k : ℕ) (iid ballot : ℤ)
    → PlacedAs id s k iid ballot
    → PlacedAs id s k iid (ballot_next ballot)
next_placed id p1_new k iid ballot h = h
next_placed id p1_pending k iid ballot (at, (n, e)) = (at, (suc n, ap ballot_next e))
next_placed id p1_ready k iid ballot (at, (n, e)) = (at, (suc n, ap ballot_next e))
next_placed id p1_finished k iid ballot (at, (n, e)) = (at, (suc n, ap ballot_next e))

-- A record of the same instance with no lower ballot is past what the old one was past.
pub PastAs-mono :
    (s : StatusFlag) (rec rec' : ProposerRecord) (a : AcceptMsg)
    → rec'.iid ≡ rec.iid
    → rec.ballot ≤ℤ rec'.ballot
    → PastAs s rec a
    → PastAs s rec' a
PastAs-mono p1_new rec rec' a e le h = h
PastAs-mono p1_pending rec rec' a e le (inl h) = inl (rw e h)
PastAs-mono p1_pending rec rec' a e le (inr (p, h)) = inr (p ∙ sym e, omega arith)
PastAs-mono p1_ready rec rec' a e le (inl h) = inl (rw e h)
PastAs-mono p1_ready rec rec' a e le (inr (p, h)) = inr (p ∙ sym e, omega arith)
PastAs-mono p1_finished rec rec' a e le (inl h) = inl (rw e h)
PastAs-mono p1_finished rec rec' a e le (inr (p, h)) = inr (p ∙ sym e, omega arith)

-- A later instance takes the place only of an earlier one, or of none.
pub past_opened :
    (s : StatusFlag) (rec : ProposerRecord) (a : AcceptMsg) (i : ℤ)
    → ltb_ℤ rec.iid i || is_new s ≡ true
    → PastAs s rec a
    → a.iid <ℤ i
past_opened p1_new rec a i e h = absurd h
past_opened p1_pending rec a i e (inl h) = ground arith
past_opened p1_pending rec a i e (inr (p, h)) = rw p (ground arith)
past_opened p1_ready rec a i e (inl h) = ground arith
past_opened p1_ready rec a i e (inr (p, h)) = rw p (ground arith)
past_opened p1_finished rec a i e (inl h) = ground arith
past_opened p1_finished rec a i e (inr (p, h)) = rw p (ground arith)

-- Finishing a record leaves it past what it was past.
pub ready_done :
    (rec : ProposerRecord) (a : AcceptMsg) → PastAs p1_ready rec a → PastAs p1_finished rec a
ready_done rec a (inl h) = inl h
ready_done rec a (inr (e, h)) = inr (e, omega arith)

-- A restarted record stands where it stood, past what it was past.
pub restart_past :
    (s : StatusFlag) (rec rec' : ProposerRecord) (a : AcceptMsg)
    → rec'.iid ≡ rec.iid
    → rec.ballot <ℤ rec'.ballot
    → PastAs s rec a
    → PastAs (if is_finished s then p1_pending else s) rec' a
restart_past p1_new rec rec' a e lt h = h
restart_past p1_pending rec rec' a e lt h = PastAs-mono p1_pending rec rec' a e (omega arith) h
restart_past p1_ready rec rec' a e lt h = PastAs-mono p1_ready rec rec' a e (omega arith) h
restart_past p1_finished rec rec' a e lt (inl h) = inl (rw e h)
restart_past p1_finished rec rec' a e lt (inr (p, h)) = inr (p ∙ sym e, omega arith)

pub restart_placed :
    (id : ℤ) (s : StatusFlag) (k : ℕ) (iid ballot : ℤ)
    → PlacedAs id s k iid ballot
    → PlacedAs id (if is_finished s then p1_pending else s) k iid (ballot_next ballot)
restart_placed id p1_new k iid ballot h = next_placed id p1_new k iid ballot h
restart_placed id p1_pending k iid ballot h = next_placed id p1_pending k iid ballot h
restart_placed id p1_ready k iid ballot h = next_placed id p1_ready k iid ballot h
restart_placed id p1_finished k iid ballot h = next_placed id p1_finished k iid ballot h
