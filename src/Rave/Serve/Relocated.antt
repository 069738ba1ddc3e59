-- ===== src/Rave/Serve/Relocated.antt =====
-- Which page a fault is served with, once the handle knows where the code stands.
use librave.Base.{
  ℕ, ◌+◌, ◌-◌, ◌*◌, ◌/◌, ◌%◌, ◌^◌, ◌<◌, ◌≡◌, refl, ◌&&◌, some, ok, arith, leb, ltb, if◌then◌else◌,
  add64, sub64,
}
use librave.Errno.{success}
use librave.Util.{page_down}
use librave.Util.Pages.{page_down_lem}
use librave.Window.{Window, null, window_contains, window_view, window_orig}
use librave.Window.Range.{IsBacked, inside}
use librave.Elf.Libelf.{Libelf}
use librave.Transform.Dr.{Dr}
use librave.Transform.Chains.{Chains}
use librave.Metadata.{MetadataOp}
use librave.Rave.Handle.{Handle}
use librave.Rave.Serve.{page_of, rave_relocate, rave_handle_fault}

page_of_lem :
    (w : Window) (a : ℕ)
    → IsBacked w
    → a < 2 ^ 64
    → page_of w a ≡ (
        if inside w a && leb (a + 4096) (w.orig + w.length)
        then w.data_ptr + (a - w.orig)
        else null)
unfolding page_of window_contains window_view
page_of_lem w a b h = ground arith

-- The page of an address in code that has been moved to `base`.
abbrev pub moved_page : Window → ℕ → ℕ → ℕ
moved_page w base a =
    if leb base a && ltb a (base + w.length) then w.data_ptr + (a - base) / 4096 * 4096 else null

page_of-moved :
    (w : Window) (base a : ℕ)
    → IsBacked w
    → w.length % 4096 ≡ 0
    → base % 4096 ≡ 0
    → base + w.length < 2 ^ 64
    → a < 2 ^ 64
    → page_of w (add64 (page_down a) (sub64 w.orig base)) ≡ moved_page w base a
page_of-moved w base a b whole aligned fits h =
    let p = page_down_lem a h in
    let served = page_of_lem w (add64 (page_down a) (sub64 w.orig base)) b (omega arith) in
    ground (arith, p, served)

module _ {lib : Libelf} {dr : Dr} {chains : Chains} {mop : MetadataOp lib} where
  -- After relocating the code segment to the page boundary `base`, a fault at any address in the
  -- relocated segment is served with the page of the local copy at the same distance from its start,
  -- and a fault at any other address with NULL. The segment has whole pages and wraps nowhere.
  pub rave_relocate-rave_handle_fault :
      (h : Handle lib dr chains mop) (w : Window) (base : ℕ)
      → h.segment ≡ some w
      → IsBacked w
      → w.length % 4096 ≡ 0
      → base % 4096 ≡ 0
      → base + w.length < 2 ^ 64
      → (h' : Handle lib dr chains mop) × (rave_relocate lib dr chains mop (some h) base
          ≡ ok (success, some h'))
        × ((a : ℕ)
            → a < 2 ^ 64
            → rave_handle_fault lib dr chains mop (some h') a ≡ ok (moved_page w base a))
  unfolding rave_relocate rave_handle_fault window_orig
  rave_relocate-rave_handle_fault h w base e b whole aligned fits =
      let h' : Handle lib dr chains mop = record h { reloc_offset = some (sub64 w.orig base) } in
      (
        h',
        rw (e) (refl),
        λ a below. rw (e, page_of-moved w base a b whole aligned fits below) (refl),
      )
