-- ===== src/Oracles.antt =====
-- The oracles that grade a built system by a script: the import driver (harness/import_driver.py)
-- and the plans that harness/state_machine_oracle.py, harness/conservation_oracle.py and
-- harness/double_entry_oracle.py give it.
pub mod Driver
pub mod Rounds
pub mod Reports
pub mod Exact
pub mod Verdict
pub mod Lists
pub mod Names
pub mod StateMachine
pub mod Grading
pub mod Accepting
pub mod Following
pub mod Balances
pub mod Conservation
pub mod Totals
pub mod Conserving
pub mod Conserved
pub mod DoubleEntry
pub mod Posting
mod After
mod Tests
mod LedgerTests
