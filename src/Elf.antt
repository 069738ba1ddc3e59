-- ===== src/Elf.antt =====
-- src/binary.h, src/binary.c, src/section.c and src/segment.c: an ELF file, the section with a given
-- name, and the segment that holds an address. `Libelf` is libelf, `Files` the system calls.
pub mod Libelf
pub mod Files
pub mod Section
pub mod Segment
pub mod Binary
pub mod Sample
mod Tests
