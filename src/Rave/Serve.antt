-- ===== src/Rave/Serve.antt =====
-- What a caller asks of a handle that is open: `rave_randomize`, `rave_relocate`,
-- `rave_handle_fault`, `rave_get_code`, `rave_get_text` and `rave_get_text_offset`.
pub mod Relocated
pub mod Ready
pub mod Live
pub mod Randomized
pub mod Session
pub mod Ended
pub mod Strays
pub mod Balanced
pub mod Lifetime
pub mod Certain
mod Tests
use librave.Base.{
  ℕ, Bool, not, Option, none, some, Outcome, ok, fault, ◌>>=◌, if◌then◌else◌, ltb, add64, sub64,
}
use librave.Errno.{Errno, success, einval}
use librave.Util.{page_down, page_size}
use librave.Memory.{Pointer, wild, null_pointer, fresh, at}
use librave.Window.{Window, null, window_orig, window_contains, window_view}
use librave.Random.{Draws}
use librave.Elf.Libelf.{Libelf}
use librave.Transform.Dr.{Dr}
use librave.Transform.Chains.{Chains}
use librave.Transform.Life.{Transform}
use librave.Transform.Permute.{World, transform_permute_all}
use librave.Metadata.{MetadataOp}
use librave.Rave.Handle.{Machine, Handle}

-- A window that has been written.
abbrev pub written : Option Window → Outcome Window
written none = fault
written (some w) = ok w

-- Behind the fields: the page of an address, 0 for NULL.
unfoldable pub page_of : Window → ℕ → ℕ
unfolding window_contains window_view
page_of segment address =
    let (page, left) = window_view (some segment) address (some 0) in
    if not (window_contains (some segment) address)
    then null
    else elim left [ none ↦ page | some length ↦ if ltb length page_size then null else page ]

module _ (lib : Libelf) (dr : Dr) (chains : Chains) (mop : MetadataOp lib) where
  abbrev pub Rave : Type 0
  Rave = Handle lib dr chains mop

  -- The list that a transform pointer leads to, `none` for NULL.
  abbrev pub held : Pointer (Transform dr chains) → Outcome (Option (Transform dr chains))
  held wild = fault
  held null_pointer = ok none
  held fresh = fault
  held (at self) = ok (some self)

  abbrev pub kept : Option (Transform dr chains) → Pointer (Transform dr chains)
  kept none = null_pointer
  kept (some self) = at self

  -- `none` is NULL.
  unfoldable pub rave_randomize :
      Draws → Option Rave → Machine → Outcome (Errno × Option Rave × Machine)
  unfolding transform_permute_all
  rave_randomize rand none m = ok (einval, none, m)
  rave_randomize rand (some h) m = do
    self ← held h.transform
    text ← written h.text
    (rc, self', world) ← transform_permute_all dr chains rand self (some text) m.world
    ok (rc, some (record h { transform = kept self' }), record m { world = world })

  unfoldable pub rave_relocate : Option Rave → ℕ → Outcome (Errno × Option Rave)
  unfolding window_orig
  rave_relocate none address = ok (einval, none)
  rave_relocate (some h) address = written h.segment >>= λ w.
      ok (success, some (record h { reloc_offset = some (sub64 (window_orig (some w)) address) }))

  unfoldable pub rave_handle_fault : Option Rave → ℕ → Outcome ℕ
  unfolding page_of page_down
  rave_handle_fault none address = ok null
  rave_handle_fault (some h) address = elim h.reloc_offset [
    | none ↦ fault
    | some reloc ↦ written h.segment >>= λ w. ok (page_of w (add64 (page_down address) reloc))
  ]

  -- Each gives a pointer and what it leaves in `*length`.
  unfoldable pub rave_get_code : Option Rave → Option ℕ → Outcome (ℕ × Option ℕ)
  unfolding window_orig window_view
  rave_get_code none length = ok (null, length)
  rave_get_code (some h) length =
      written h.segment >>= λ w. ok (window_view (some w) (window_orig (some w)) length)

  unfoldable pub rave_get_text : Option Rave → Option ℕ → Outcome (ℕ × Option ℕ)
  unfolding window_orig window_view
  rave_get_text none length = ok (null, length)
  rave_get_text (some h) length =
      written h.text >>= λ w. ok (window_view (some w) (window_orig (some w)) length)

  unfoldable pub rave_get_text_offset : Option Rave → Outcome ℕ
  unfolding window_orig
  rave_get_text_offset none = ok 0
  rave_get_text_offset (some h) = written h.text >>= λ w. ok (window_orig (some w))
