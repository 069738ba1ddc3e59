-- ===== src/Rave/Handle/Bounds.antt =====
-- Which functions are offered to the transformation.
use librave.Base.{
  ℕ, ◌+◌, ◌^◌, ◌<◌, ◌≡◌, Bool, not, ◌&&◌, ◌||◌, some, ok, arith, leb, ltb, ap, ◌∙◌, if◌then◌else◌,
  add64, refl, false, true,
}
use librave.Errno.{success}
use librave.Window.{Window, window_contains}
use librave.Window.Range.{IsBacked, window_contains_lem}
use librave.Elf.Libelf.{Libelf}
use librave.Transform.Dr.{Dr}
use librave.Transform.Chains.{Chains}
use librave.Transform.Data.{Function}
use librave.Metadata.{MetadataOp}
use librave.Rave.Handle.{Machine, Handle, offer, test_bounds, process_function}

enough :
    (w : Window) (a l : ℕ)
    → IsBacked w
    → a + l < 2 ^ 64
    → (not (window_contains (some w) a) || not (window_contains (some w) (add64 a l)))
      ≡ not (leb w.orig a && ltb (a + l) (w.orig + w.length))
enough w a l b small =
    let first = window_contains_lem w a b in
    let last = window_contains_lem w (add64 a l) b in ground (arith, first, last)

swapped {ℓ} : {A : Type ℓ} (x y : A) (b : Bool) → (if not b then x else y) ≡ (if b then y else x)
swapped x y true = refl
swapped x y false = refl

module _ {lib : Libelf} {dr : Dr} {chains : Chains} {mop : MetadataOp lib} where
  -- A function is offered to the transformation exactly when it begins in the text section and ends
  -- before the end of the section; one that ends where the section ends, or is not inside it, is
  -- passed over with success, and nothing changes. The text section and the function do not wrap.
  pub process_function_lem :
      (function : Function) (h : Handle lib dr chains mop) (m : Machine) (w : Window)
      → h.text ≡ some w
      → IsBacked w
      → function.addr + function.len < 2 ^ 64
      → process_function lib dr chains mop function (h, m) ≡ (
          if leb w.orig function.addr && ltb (function.addr + function.len) (w.orig + w.length)
          then offer lib dr chains mop function w h m
          else ok (success, (h, m)))
  unfolding process_function
  process_function_lem function h m w e b small =
      ap (λ text. test_bounds lib dr chains mop text function h m) e
      ∙ rw (enough w function.addr function.len b small) (
          swapped _ _
            (leb w.orig function.addr && ltb (function.addr + function.len) (w.orig + w.length)))
