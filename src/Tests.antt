-- ===== src/Tests.antt =====
-- Small machines and process tables on which the theorems of the other modules are applied.
pub mod Memory
pub mod Scheduling
pub mod Heap
pub mod Boot
pub mod Texts
pub mod Files
pub mod Images
pub mod Prints
pub mod Break
