-- ===== src/Decoder.antt =====
-- The interpreter of navigation commands, vm/decoder.h and vm/decoder.c.
pub mod State
pub mod Getbits
pub mod Registers
pub mod Compare
pub mod Links
pub mod Sets
pub mod Eval
pub mod Safety
mod Tests
