-- ===== src/Errno.antt =====
-- include/rave/errno.h: the error codes, in the order in which the enumeration numbers them.
use librave.Base.{ℕ, ◌≡◌, ◌≢◌, ◌↔◌, Bool, true, false, arith}

pub data Errno : Type 0 where
  success : Errno
  eelf_init eelf_memory eelf_not_supported eelf_header : Errno
  efile_open efile_stat emapping efile_close : Errno
  esection_header eno_section esection_data eno_segment eprogram_header : Errno
  emap_failed eseg_not_loadable edwarf etransform : Errno
  efatal einval enomem : Errno

-- The value of `RAVE__...` as an `int`.
unfoldable pub code : Errno → ℕ
code success = 0
code eelf_init = 1
code eelf_memory = 2
code eelf_not_supported = 3
code eelf_header = 4
code efile_open = 5
code efile_stat = 6
code emapping = 7
code efile_close = 8
code esection_header = 9
code eno_section = 10
code esection_data = 11
code eno_segment = 12
code eprogram_header = 13
code emap_failed = 14
code eseg_not_loadable = 15
code edwarf = 16
code etransform = 17
code efatal = 18
code einval = 19
code enomem = 20

-- `rc == RAVE__SUCCESS`
unfoldable pub is_success : Errno → Bool
is_success success = true
is_success _ = false

pub is_success_iff : (rc : Errno) → (is_success rc ≡ true) ↔ (rc ≡ success)
unfolding is_success
is_success_iff rc = ground arith

pub failing : (rc : Errno) → is_success rc ≡ false → rc ≢ success
failing rc t e = let t' = (is_success_iff rc).1 e in absurd (cc)
