-- ===== src/Player.antt =====
-- dvdnav.c: the player that an application asks for the next block or event.
pub mod State
pub mod Time
pub mod Packet
pub mod Vobu
pub mod Events
pub mod Changes
pub mod Next
pub mod Info
pub mod Frame
pub mod Untold
pub mod Quiet
pub mod Settle
pub mod Steady
pub mod Blocks
pub mod Ticks
pub mod Pack
pub mod Tests
