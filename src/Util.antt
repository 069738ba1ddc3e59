-- ===== src/Util.antt =====
-- src/util.h: page rounding, pointer offsets and the range test, on 64-bit words.
pub mod Pages
mod Tests
use librave.Base.{ℕ, ◌-◌, ◌^◌, Bool, ◌&&◌, bit_and, leb, ltb, add64}

abbrev pub page_size : ℕ
page_size = 4096

-- `~(PAGESZ - 1)` is an `int`, which the conversion to 64 bits extends by its sign.
unfoldable pub page_down : ℕ → ℕ
page_down addr = bit_and addr (2 ^ 64 - page_size)

unfoldable pub page_up : ℕ → ℕ
unfolding page_down
page_up addr = page_down (add64 addr (page_size - 1))

-- A pointer, or an address, moved by a number of bytes.
abbrev pub offset : ℕ → ℕ → ℕ
offset ptr off = add64 ptr off

abbrev pub contains : ℕ → ℕ → ℕ → Bool
contains val lo hi = leb lo val && ltb val hi
