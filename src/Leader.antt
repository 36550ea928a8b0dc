-- ===== src/Leader.antt =====
-- lib/leader.c. The statics of the file are the record `Leader`; `State` has its operations on the
-- send buffer, `Phase1` and `Phase2` the handlers. `none` is a fault: a failed assertion, or an
-- index outside an array. The two periodic timers are always armed again, so that arming them is no
-- part of the state.
pub mod State
pub mod Phase1
pub mod Phase2
pub mod Choice
pub mod Bounds
pub mod AnyBounds
pub mod Counts
pub mod Quorate
pub mod Promised
pub mod Reached
pub mod Restart
pub mod Ledger
pub mod LedgerMoves
pub mod LedgerPhase1
pub mod LedgerPhase2
pub mod OneValue
