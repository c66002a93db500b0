-- ===== src/Allocation.antt =====
-- agent/src/core/allocation.ts (enclave/app/allocation.ts is a copy): the split of a budget over
-- lending reserves by water-filling.
pub mod Curve
pub mod WaterFill
pub mod Finalize
pub mod Solve
pub mod Largest
pub mod Balance
pub mod Pruning
pub mod Solved
