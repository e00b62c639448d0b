-- ===== src/Vm.antt =====
-- vm/vm.c: the virtual machine over the interpreter of vm/decoder.c.
pub mod Disc
pub mod State
pub mod Lookup
pub mod Streams
pub mod Sets
pub mod Play
pub mod Links
pub mod Process
pub mod Jumps
pub mod Start
pub mod Copies
pub mod Position
pub mod Titles
pub mod Programs
pub mod Rests
pub mod Frames
pub mod Resume
pub mod LinkRsm
pub mod Blocks
pub mod First
pub mod Endless
pub mod Chains
pub mod Chapters
pub mod Current
pub mod Tests
