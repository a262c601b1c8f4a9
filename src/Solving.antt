-- ===== src/Solving.antt =====
-- Loops of the harness that call a model and a test until they are done or their budget is used up:
-- harness/agent_loop.py and harness/repair_solve.py. The model, the tools and the tests are
-- parameters that act on the state of the outside world.
pub mod AgentLoop
pub mod Settling
pub mod Failing
pub mod Repair
mod Tests
