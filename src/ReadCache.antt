-- ===== src/ReadCache.antt =====
-- src/read_cache.c: the buffers that hold the blocks of a unit (VOBU) ahead of the player.
pub mod State
pub mod Allocate
pub mod Read
pub mod Release
pub mod Memory
pub mod Sound
pub mod Sizes
pub mod Found
pub mod Fill
pub mod Preserve
pub mod Kept
pub mod Serve
pub mod Transparent
pub mod Choose
pub mod Reserve
pub mod Ready
pub mod Refuse
pub mod Held
pub mod Returned
pub mod Start
pub mod Dispose
pub mod Tests
