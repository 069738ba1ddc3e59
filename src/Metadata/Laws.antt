-- ===== src/Metadata/Laws.antt =====
-- What a walk over the functions promises: the callback is offered each in turn, until it fails.
use librave.Base.{
  ◌≡◌, refl, true, false, List, [], ◌∷◌, ◌++◌, Outcome, ok, ◌>>=◌, bind_assoc, bind-ext, inl, inr,
  Bool-cases, ◌∙◌, sym, Settles, Settles-bind, All, ◌<◌, ◌^◌,
}
use librave.Errno.{Errno, success, is_success}
use librave.Transform.Data.{Function}
use librave.Elf.Binary.{Binary}
use librave.Metadata.{Callback, MetadataOp}
use librave.Memory.{Pointer}
use librave.Elf.Libelf.{Libelf}

-- The two numbers are 64-bit words.
abbrev pub IsWords : Function → Type 0
IsWords f = (f.addr < 2 ^ 64) × (f.len < 2 ^ 64)

module _ {S : Type 0} (cb : Callback S) where
  -- Functions offered in turn; behind the last one stands a code of the walk itself.
  unfoldable pub offers : List Function → Errno → S → Outcome (Errno × S)
  offers [] end s = ok (end, s)
  offers (f ∷ fs) end s =
      cb f s >>= λ (rc, s'). elim (is_success rc) [ false ↦ ok (rc, s') | true ↦ offers fs end s' ]

  -- Behind the first of two lists.
  abbrev pub go_on : List Function → Errno → Errno × S → Outcome (Errno × S)
  go_on fs end (rc, s) = elim (is_success rc) [ false ↦ ok (rc, s) | true ↦ offers fs end s ]

  pub offers-append :
      (gs fs : List Function) (end : Errno) (s : S)
      → offers (gs ++ fs) end s ≡ (offers gs success s >>= go_on fs end)
  unfolding offers is_success
  offers-append [] fs end s = refl
  offers-append (g ∷ gs) fs end s =
      bind-ext (cb g s) _ _ (λ (rc, s'). elim (Bool-cases (is_success rc)) [
        | inl t ↦ rw (t) (offers-append gs fs end s')
        | inr t ↦ rw (t) (rw (t, go_on) refl)
      ])
      ∙ sym (bind_assoc (cb g s) _ (go_on fs end))

  -- A callback that ends and keeps a property of its state.
  abbrev pub Keeps : Type 0 → (S → Type 0) → Type 0
  Keeps D P = (f : Function) (s : S) → IsWords f → P s → Settles D (λ (rc, s'). P s') (cb f s)

  pub offers-Settles :
      (D : Type 0) (P : S → Type 0)
      → Keeps D P
      → (fs : List Function) (end : Errno) (s : S) → All IsWords fs
      → P s
      → Settles D (λ (rc, s'). P s') (offers fs end s)
  unfolding offers
  offers-Settles D P keeps [] end s words p = p
  offers-Settles D P keeps (f ∷ fs) end s (word, words) p =
      Settles-bind D (λ (rc, s'). P s') (λ (rc, s'). P s') (cb f s) _ (keeps f s word p)
        (λ (rc, s') p'. elim (Bool-cases (is_success rc)) [
          | inl t ↦ rw (t) (offers-Settles D P keeps fs end s' words p')
          | inr t ↦ rw (t) p'
        ])

-- What the client of a source of functions uses: once it is initialised, a walk ends and hands over
-- machine words, whatever property of its state the callback keeps.
pub record MetadataLaws {lib : Libelf} (mop : MetadataOp lib) : Type 1 where
  pub Ready : Pointer mop.Metadata → Type 0
  pub init-Ready :
      (p p' : Pointer mop.Metadata) (binary : Binary lib)
      → mop.init p binary ≡ ok (success, p')
      → Ready p'
  pub foreach_function-Settles :
      {S : Type 0} (cb : Callback S) (D : Type 0) (P : S → Type 0)
      → Keeps cb D P
      → (p : Pointer mop.Metadata) (s : S) → Ready p
      → P s
      → Settles D (λ (rc, p', s'). P s') (mop.foreach_function p cb s)
