-- ===== src/System.antt =====
-- The programs of a group together: acceptors, a learner, and a network between them.
pub mod Network
pub mod Validity
