-- ===== src/Window/Range.antt =====
-- What a window shows, in arithmetic that does not wrap.
use librave.Base.{
  ℕ, ◌+◌, ◌-◌, ◌^◌, ◌≤◌, ◌<◌, ◌≡◌, Bool, false, ◌&&◌, some, arith, leb, ltb, if◌then◌else◌,
}
use librave.Window.{Window, null, window_contains, window_view}

-- A window that ends before the last address, over a buffer that does not wrap either.
pub record IsBacked (w : Window) : Type 0 where
  pub below_end : w.orig + w.length < 2 ^ 64
  pub buffer_below_end : w.data_ptr + w.length < 2 ^ 64

abbrev pub inside : Window → ℕ → Bool
inside w a = leb w.orig a && ltb a (w.orig + w.length)

-- For a window that ends before the last address, over a buffer that does not wrap: the addresses
-- that it contains are exactly those from its start up to, not including, the
-- start plus its length.
pub window_contains_lem :
    (w : Window) (a : ℕ) → IsBacked w → window_contains (some w) a ≡ inside w a
unfolding window_contains
window_contains_lem w a b = ground arith

-- For a window that ends before the last address, over a buffer that does not wrap: viewing an
-- address inside it gives the byte of the buffer at the same distance from its
-- start and, if asked for, the count of bytes from there to the end; viewing any other address
-- gives NULL and leaves the count alone.
pub window_view_lem :
    (w : Window) (a l : ℕ)
    → IsBacked w
    → a < 2 ^ 64
    → window_view (some w) a (some l) ≡ (
        if inside w a
        then (w.data_ptr + (a - w.orig), some (w.orig + w.length - a))
        else (null, some l))
unfolding window_view
window_view_lem w a l b h = ground arith

-- A window whose end is at or past the end of the address space contains no address at all, since
-- its end wraps below its start.
pub window_contains_wrapped :
    (w : Window) (a : ℕ)
    → w.orig < 2 ^ 64
    → w.length < 2 ^ 64
    → 2 ^ 64 ≤ w.orig + w.length
    → window_contains (some w) a ≡ false
unfolding window_contains
window_contains_wrapped w a ho hl h = ground arith
