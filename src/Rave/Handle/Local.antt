-- ===== src/Rave/Handle/Local.antt =====
-- Where a function of the text stands in local memory.
use librave.Base.{◌+◌, ◌^◌, ◌<◌, ◌≤◌, ◌≡◌, Bool, true, false, not, ◌||◌, some, none, arith, add64}
use librave.Util.{offset}
use librave.Window.{Window, window_contains, window_view}
use librave.Window.Range.{IsBacked, inside}
use librave.Transform.Data.{Function}
use librave.Metadata.Laws.{IsWords}

-- Where a function that passes the tests stands in the local text: it is short, or its end wraps
-- below its start.
pub local_short :
    (w : Window) (f : Function)
    → IsBacked w
    → w.length ≤ 2 ^ 32
    → f.addr + f.len < 2 ^ 64
    → inside w f.addr ≡ true
    → inside w (add64 f.addr f.len) ≡ true
    → (f.addr + f.len < w.orig + w.length)
      × (offset (window_view (some w) f.addr none).0 f.len
          ≤ (window_view (some w) f.addr none).0 + 2 ^ 32)
unfolding window_view window_contains
local_short w f b small fits first last = (ground arith, ground arith)

pub local_wrapped :
    (w : Window) (f : Function)
    → IsBacked w
    → IsWords f
    → 2 ^ 64 ≤ f.addr + f.len
    → inside w f.addr ≡ true
    → inside w (add64 f.addr f.len) ≡ true
    → offset (window_view (some w) f.addr none).0 f.len ≤ (window_view (some w) f.addr none).0
unfolding window_view window_contains
local_wrapped w f b words wraps first last = ground arith

-- An access with a test for both ends.
pub both : (a b : Bool) → (not a || not b) ≡ false → (a ≡ true) × (b ≡ true)
both a b e = (ground arith, ground arith)
