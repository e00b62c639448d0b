-- ===== src/Lib.antt =====
-- libdvdnav: navigation on DVD video discs.
--
-- The library reads the navigation structures of a disc and plays the part of a DVD player.
-- src/vm is the virtual machine: src/vm/decoder.c interprets the 8-byte navigation commands of the disc
-- over the system and general registers.
--
-- Decoder models src/vm/decoder.h and src/vm/decoder.c. `command_t`, the registers and the link
-- under construction, which the code updates through pointers, are one record `Machine` that is
-- passed on; `gettimeofday` and `rand` are two streams of answers in it. A call of `abort` and an
-- access outside an array are results of their own. Functions have the names of the code in lower
-- case (get_GPRM is `get_gprm`, vmEval_CMD is `vm_eval_cmd`). The loop of vmEval_CMD has the code's
-- own limit of 100000 rounds, on which the model recurs. A signed product that overflows wraps to
-- 32 bits; the arguments of a comparison are evaluated from left to right; `float` rounds to 24
-- bits and RAND_MAX is 2 ^ 31 - 1. The TRACE printers are left out.
--
-- Remap models src/remap.c, the sorted array of block ranges that redirects the player: its order
-- (compare_block), binary search (findblock), insertion with the growing of the array
-- (remap_add_node) and lookup (remap_block). The array is a list of `maxblocks` entries of which
-- `nblocks` are in use; an access outside it is a result of its own, and what `realloc` gives is an
-- argument. The search runs on fuel, one more round than the map has blocks. The reading of a map
-- file (parseblock, remap_loadmap) is left out.
--
-- Vm models the virtual machine of src/vm/vm.c and vm.h: Vm.Disc the tables of the disc that it
-- reads, with the names of libdvdread (a pointer to a program chain is its number in one list, a
-- table has its count as its length), Vm.State `vm_t` and `dvd_state_t`, Vm.Lookup the get
-- functions, Vm.Sets the set functions, Vm.Play the play functions, Vm.Links and Vm.Process
-- process_command, Vm.Jumps the vm_jump functions, Vm.Start starting, stopping and copies,
-- Vm.Position vm_position_get, Vm.Streams the streams, angles and picture. A function of the code
-- that returns `int` for success returns a Boolean. What the opening of a title set gives is a
-- field of the machine, since libdvdread does that. vmEval_CMD is that of Decoder. A copy of the
-- machine that fails is freed with the handles of the disc that the original uses, too: the
-- original is then `disconnected`, without VMGI and with nothing to open. A program chain that
-- plays nothing goes on with the next one, and process_command follows links, both possibly for
-- ever: the former has the fuel `left`, the number of further program chains, the latter the fuel
-- `rounds`, and the end of either is a result `unfinished`. `int` values that the code keeps from
-- being negative are natural numbers, and an index -1 is an access outside the array. The opening
-- and closing of the disc, the audio and subpicture attributes and the printers are left out.
--
-- Searching models src/searching.c: dvdnav_scan_admap over the tables of Vm.Disc, in
-- Searching.Programs the searches for a part or a program and dvdnav_menu_call, which try a jump on a
-- copy of the virtual machine, and in Searching.Seek the positions and the searches for a sector or a
-- time. Sectors are 32-bit numbers that wrap, the offset of a search is an integer.
-- dvdnav_describe_title_chapters is left out.
--
-- ReadCache models src/read_cache.c: ReadCache.State the chunks and the memory that their buffers
-- lie in, a function from addresses to blocks, ReadCache.Allocate dvdnav_pre_cache_blocks,
-- ReadCache.Read dvdnav_read_cache_block, ReadCache.Release the giving back and freeing. Counts
-- that can fall below 0 are integers, a pointer before a buffer is a fault, and sectors are natural
-- numbers. libdvdread's DVDReadBlocks is a parameter that returns the blocks it read or fails; what
-- malloc or realloc returns is an argument, and a failed allocation is not told apart, as in the
-- code. The mutex is left out. A call with a NULL cache, which does nothing, is left out.
--
-- Player models src/dvdnav.c over Vm, Remap and ReadCache: Player.State `dvdnav_t`, Player.Events,
-- Player.Changes and Player.Next dvdnav_get_next_cache_block as a chain of handlers, each of which
-- tells its event or leaves the call to the rest, Player.Packet and Player.Vobu the navigation
-- packets, Player.Time the times, Player.Info what the player tells of itself. An event is a value
-- with the fields that the code fills in. The functions of libdvdread (DVDOpenFile, DVDReadBlocks,
-- navRead_PCI, navRead_DSI) are a record of functions that is passed on. A call runs with the fuel
-- of the virtual machine. Opening, closing and copying a player, its strings and its error text are
-- left out, as are the attributes of the streams. The `int` fields of a position or a unit are their
-- bit patterns.
--
-- Highlight models src/highlight.c over Player and Vm: the menu of a PCI packet is a list of buttons
-- with their count beside it, and a button without an entry is a fault; Highlight.Mouse the choice by
-- the mouse. Navigation models src/navigation.c and Settings src/settings.c. DVDNAV_STATUS_OK is
-- `true` or a result, DVDNAV_STATUS_ERR `false` or `none`; the numbers of titles, parts and buttons
-- and the coordinates are natural numbers, as a negative one is refused in the same way as 0. Only
-- dvdnav_button_activate_cmd takes an integer. The texts of the errors and the mutex are left out.
--
-- Not modelled: src/vm/vmcmd.c and the printers of src/highlight.c, which print only, the example
-- program and the port to Windows.
pub mod Prelude
pub mod Decoder
pub mod Remap
pub mod Vm
pub mod Searching
pub mod ReadCache
pub mod Player
pub mod Highlight
pub mod Navigation
pub mod Settings
