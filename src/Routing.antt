-- ===== src/Routing.antt =====
-- The routing lifecycle: which model takes a problem, how it is made the served one, and the
-- escalation over several models.
pub mod Registry
pub mod Router
pub mod Classes
pub mod Rewire
pub mod Rewired
pub mod Escalation
pub mod Winner
mod Tests
