-- ===== src/Window.antt =====
-- src/window.h and src/window.c: a region of local memory seen under the addresses for which it is
-- meant. A pointer argument that the code compares with NULL is an option, and `none` is NULL; an
-- out parameter is the content of the variable that it points to, or `none` for NULL.
pub mod Range
mod Tests
use librave.Base.{ℕ, Bool, false, Option, none, some, ◌==◌, if◌then◌else◌, sub64, not}
use librave.Errno.{Errno, success, einval}
use librave.Util.{offset, contains}

abbrev pub null : ℕ
null = 0

pub record Window : Type 0 where
  pub orig : ℕ
  pub data_ptr : ℕ
  pub length : ℕ

-- `*out = v` where `out` may be NULL.
abbrev pub put : Option ℕ → ℕ → Option ℕ
put none v = none
put (some _) v = some v

unfoldable pub window_init : Option Window → ℕ → ℕ → ℕ → Errno × Option Window
window_init none orig data_ptr length = (einval, none)
window_init (some self) orig data_ptr length =
    (success, some (record self { orig = orig; data_ptr = data_ptr; length = length }))

unfoldable pub window_relocate : Option Window → ℕ → Option Window
window_relocate none orig = none
window_relocate (some self) orig = some (record self { orig = orig })

unfoldable pub window_orig : Option Window → ℕ
window_orig none = 0
window_orig (some self) = self.orig

unfoldable pub window_get : Option Window → Option ℕ → ℕ × Option ℕ
window_get none length = (null, length)
window_get (some self) length =
    (self.data_ptr, (if not (self.data_ptr == null) then put length self.length else length))

unfoldable pub window_contains : Option Window → ℕ → Bool
window_contains none address = false
window_contains (some self) address = contains address self.orig (offset self.orig self.length)

unfoldable pub window_view : Option Window → ℕ → Option ℕ → ℕ × Option ℕ
unfolding window_contains
window_view none address length = (null, length)
window_view (some self) address length =
    if not (window_contains (some self) address) then (null, length) else (
      offset self.data_ptr (sub64 address self.orig),
      put length (sub64 self.length (sub64 address self.orig)),
    )
