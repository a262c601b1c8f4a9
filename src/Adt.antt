-- ===== src/Adt.antt =====
-- harness/adt_oracle.py: the reference models of the five data types, and the comparison of what
-- they say with what a built program prints. The seeded choice of operations (`random.Random`) and
-- the run of the program are left out: the operations and the printed lines are arguments.
pub mod Lru
pub mod Queues
pub mod Ttl
pub mod Heap
pub mod Drive
pub mod Classify
pub mod Winners
pub mod Naming
mod Tests
