-- ===== src/Tests.antt =====
-- Runs of the models at concrete inputs.
pub mod Scheduling
pub mod Rotating
pub mod Handover
pub mod Mutex
pub mod Masking
pub mod Booting
pub mod Starting
pub mod Heap
pub mod Regions
pub mod Paging
pub mod Screen
pub mod Sleeping
pub mod Keyboard
pub mod Switching
pub mod Loading
pub mod Typing
pub mod Blocks
pub mod Shelling
