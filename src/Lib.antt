-- ===== src/Lib.antt =====
-- rave, a library that randomizes the code of an ELF program while it runs.
--
-- The program. `src/rave.c` keeps a handle: it opens an ELF file (`src/binary.c`, `src/section.c`,
-- `src/segment.c`), copies its code segment into local memory, has the metadata name the functions
-- (`src/metadata.h`), and offers those inside the text section to the transformation
-- (`src/transform.c`). The transformation keeps the functions whose first run of pushes is undone
-- by runs of pops, and permutes the pushes and, mirrored, the pops. A caller serves page faults of
-- the running program from the local copy.
--
-- The files.
-- * `Base` and the files below it: tests on native numbers, lists, 64-bit words, outcomes with
--   faults, arrays as lists, orders of slots.
-- * `Errno` is `include/rave/errno.h`, `Util` is `src/util.h`, `Window` is `src/window.c`, `Random`
--   is `src/random.c`, and `Memory` with `Transform.Store` is `src/memory.h`.
-- * `Elf.Section`, `Elf.Segment` and `Elf.Binary` are `src/section.c`, `src/segment.c` and
--   `src/binary.c`; `Elf.Libelf` and `Elf.Files` are what these take from libelf and the system.
-- * `Transform.Sets` is `struct instr_set` and `next_set`, `Transform.Data` the transformable,
--   `Transform.Mirror` is `is_epilogue`, `Transform.Add` is `transform_add_function`,
--   `Transform.Encode` writes instructions, `Transform.Permute` is `permute` and
--   `transform_permute_all`, `Transform.Life` makes and unmakes a transform, and `Transform.Held`
--   counts what sets and functions hold; all of them are `src/transform.c`. `Transform.Dr` is what
--   the code takes from DynamoRIO, and `Transform.Chains` what it takes from `src/list.h`.
-- * `Metadata` is `src/metadata.h`, and `Metadata.Laws` what the client of the interface uses;
--   `Metadata.Dwarf` is `src/metadata_dwarf.c`, over `Metadata.Libdwarf`, which is what it takes from
--   libdwarf.
-- * `Rave.Handle`, `Rave.Pages`, `Rave.Life` and `Rave.Serve` are `src/rave.c`. `Rave.Life` follows a
--   handle from `rave_init` to `rave_close`; `Rave.Serve.Session` is any sequence of the calls that
--   change an open handle.
-- A definition has the name of the C function; one that is a part of a function says of which. The
-- `Sample` files hold concrete libraries, and the `Tests` files run the theorems on them.
--
-- How C is read. A pointer into local memory is a 64-bit number, and memory a function from numbers
-- to bytes; an `int` is its 32-bit pattern. A pointer to an object is an option where NULL is
-- tested, and a `Pointer` where it may also be indeterminate. A function returns its result with
-- the objects that it changes. What C leaves undefined (a read of a value that was never written,
-- an access out of bounds, a division by zero) is the outcome `fault`. Two undefined reads stand on
-- ordinary paths, and a machine may let them through or not: `instr_set_close` reads the link of
-- each instruction that it has just destroyed, and `instr_set_encode_order` the entry behind its
-- array. `lingers` and `overreads` of `Dr` are parameters for them, and the outcome is `fault` where
-- one is false; `next_set`, `transform_add_function` and `transform_close` count the first reads in
-- the store and fault when they return. `Decodes` and `IsEncodable` hold the assumption that a read
-- is let through. Whether a request for memory is granted is a parameter, and the blocks that are
-- held are counted.
--
-- Fuel. `next_set` and the search of `transform_add_function` run on one round more than there are
-- bytes to walk; a round walks at least one byte, because an instruction has at least one. The
-- walk over the debug information runs on two numbers, for the units and for the entries of a unit;
-- they are enough where libdwarf comes to each unit and each entry once, and has fewer of them. All
-- other loops are recursions on a list or a count.
--
-- The addresses of epilogues. The code moves the original address over each run of the search twice,
-- so it keeps the addresses of all runs but the first too high. The theorems on a permutation
-- therefore take as hypotheses that the addresses kept lie in the function and have nothing in
-- common, which the list of functions shows.
--
-- Not modelled. `get_subprogram_count` of `src/metadata_dwarf.c`, which is not compiled, and the
-- error objects of libdwarf, which are only printed and given back; `src/list.h`, which is copied
-- from the Linux kernel; the logging of `src/log.h` and the functions that print; the programs of
-- `test`. The close of a set is modelled by the objects that it gives back and by how many links of
-- destroyed instructions it reads, not by what a link that was changed would lead to. Local memory is not protected from accesses outside the blocks, except where
-- `map_code_pages` copies a segment that is larger in the file than its block, or that the file does
-- not hold.
pub mod Base
pub mod Errno
pub mod Util
pub mod Random
pub mod Window
pub mod Elf
pub mod Memory
pub mod Metadata
pub mod Rave
pub mod Transform
