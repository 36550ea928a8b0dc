-- ===== src/Acceptor.antt =====
-- lib/acceptor.c. The handlers' `int` results are dropped, as `get_next_message` drops them. What
-- `malloc` leaves in a record is an argument of the handlers that allocate one.
pub mod State
pub mod Prepare
pub mod Accept
pub mod Anyval
pub mod Buffer
pub mod Cache
pub mod Spec
pub mod Promise
pub mod Vote
pub mod Enable
pub mod Replies
pub mod Source
pub mod Runs
pub mod Clear
pub mod Firm
pub mod Kept
pub mod Safety
pub mod Anomalies
