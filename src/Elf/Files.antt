-- ===== src/Elf/Files.antt =====
-- The system calls of `map_file` and `binary_close`, with `none` for -1. `mmap` returns a pointer in
-- every case, `MAP_FAILED` for an error.
use librave.Base.{ℕ, ◌-◌, ◌^◌, Bool, Option}

pub record Files : Type 1 where
  pub Name : Type 0
  pub open_file : Name → Option ℕ
  -- the size in `statbuf`
  pub fstat : ℕ → Option ℕ
  pub mmap : ℕ → ℕ → ℕ
  pub close_file : ℕ → Bool
  pub munmap : ℕ → ℕ → Bool

-- `(void *) -1`
abbrev pub map_failed : ℕ
map_failed = 2 ^ 64 - 1
