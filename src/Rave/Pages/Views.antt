-- ===== src/Rave/Pages/Views.antt =====
-- The window of the text section lies over the window of the segment.
use librave.Base.{ℕ, ◌+◌, ◌^◌, ◌≤◌, ◌<◌, ◌≡◌, true, none, some, arith, sub64}
use librave.Util.{offset}
use librave.Window.{Window, window_view, window_contains}
use librave.Window.Range.{IsBacked, inside}

-- For a section that the file places in its segment where it is placed in memory, at or behind the
-- start of the segment, every address of the text window shows the same local byte through the
-- text window as through the window of the segment, if the text lies in the segment, which wraps
-- nowhere.
pub window_view-window_view :
    (code text : Window) (sh_offset p_offset a : ℕ)
    → IsBacked code
    → text.data_ptr ≡ offset code.data_ptr (sub64 sh_offset p_offset)
    → p_offset ≤ sh_offset
    → sh_offset < 2 ^ 64
    → text.orig + p_offset ≡ code.orig + sh_offset
    → text.orig + text.length ≤ code.orig + code.length
    → inside text a ≡ true
    → (window_view (some text) a none).0 ≡ (window_view (some code) a none).0
unfolding window_view window_contains
window_view-window_view code text sh_offset p_offset a b placed le small same fits within =
    ground arith
