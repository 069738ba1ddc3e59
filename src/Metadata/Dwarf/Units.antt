-- ===== src/Metadata/Dwarf/Units.antt =====
-- What the units of a binary name, and the walk over all of them.
use librave.Base.{
  ℕ, zero, suc, ◌+◌, ◌-◌, ◌<◌, ◌≡◌, ◌≢◌, refl, sym, ap, ◌∙◌, true, false, List, [], ◌∷◌, ◌++◌,
  Option, none, some, arith, Outcome, ok, ◌>>=◌, bind_assoc, bind-ext, inl, inr, Bool-cases,
}
use librave.Errno.{Errno, success, edwarf, is_success, is_success_iff}
use librave.Memory.{Pointer, at}
use librave.Elf.Libelf.{Libelf}
use librave.Transform.Data.{Function}
use librave.Metadata.{Callback}
use librave.Metadata.Laws.{offers, go_on, offers-append}
use librave.Metadata.Libdwarf.{got, no_entry, error, Libdwarf}
use librave.Metadata.Dwarf.{Session, process_die_and_siblings, units_loop, foreach_function}
use librave.Metadata.Dwarf.Entries.{Children, HasWords, siblings_loop-offers}

abbrev pub behind : {lib : Libelf} (dw : Libdwarf lib) → dw.Dbg → dw.Dbg
behind dw dbg = (dw.next_cu_header dbg).1

-- The units that a reader comes to, fewer than `deep` entries in each, name some functions, and end
-- by a code: success behind the last one, `edwarf` where something cannot be read. A unit that has
-- no entry is passed over.
pub data Units {lib : Libelf} (dw : Libdwarf lib) (deep : ℕ)
    : dw.Dbg → ℕ → List Function → Errno → Type 0 where
  none_left : {dbg : dw.Dbg} → (dw.next_cu_header dbg).0 ≡ no_entry → Units dw deep dbg 0 [] success
  unreadable : {dbg : dw.Dbg} → (dw.next_cu_header dbg).0 ≡ error → Units dw deep dbg 0 [] edwarf
  spoiled :
      {dbg : dw.Dbg}
      → (dw.next_cu_header dbg).0 ≡ got tt
      → dw.siblingof (behind dw dbg) none ≡ error
      → Units dw deep dbg 0 [] edwarf
  entryless :
      {dbg : dw.Dbg} {n : ℕ} {fs : List Function} {end : Errno}
      → (dw.next_cu_header dbg).0 ≡ got tt
      → dw.siblingof (behind dw dbg) none ≡ no_entry
      → Units dw deep (behind dw dbg) n fs end
      → Units dw deep dbg (suc n) fs end
  unit :
      {dbg : dw.Dbg} {cu_die : dw.Die} {m n : ℕ} {gs fs : List Function} {end : Errno}
      → (dw.next_cu_header dbg).0 ≡ got tt
      → dw.siblingof (behind dw dbg) none ≡ got cu_die
      → Children dw (behind dw dbg) (dw.child cu_die) m gs success
      → m < deep
      → Units dw deep (behind dw dbg) n fs end
      → Units dw deep dbg (suc n) (gs ++ fs) end
  broken :
      {dbg : dw.Dbg} {cu_die : dw.Die} {m : ℕ} {gs : List Function} {end : Errno}
      → (dw.next_cu_header dbg).0 ≡ got tt
      → dw.siblingof (behind dw dbg) none ≡ got cu_die
      → Children dw (behind dw dbg) (dw.child cu_die) m gs end
      → end ≢ success
      → m < deep
      → Units dw deep dbg 0 gs end

-- The entries held through a pointer to the metadata.
abbrev pub held : {lib : Libelf} {dw : Libdwarf lib} → Pointer (Session dw) → Option ℕ
held (at self) = some self.dies
held _ = none

-- A result with the entries that are held, and one of a walk that holds so many.
abbrev pub reported :
    {lib : Libelf} {dw : Libdwarf lib} {S : Type 0}
    → Errno × Pointer (Session dw) × S
    → Outcome (Errno × Option ℕ × S)
reported (rc, self, s) = ok (rc, held self, s)

abbrev pub giving_back : {S : Type 0} → ℕ → Errno × S → Outcome (Errno × Option ℕ × S)
giving_back dies (rc, s) = ok (rc, some dies, s)

pub is_success_off : (rc : Errno) → rc ≢ success → is_success rc ≡ false
is_success_off rc ne = elim (Bool-cases (is_success rc)) [
  | inl t ↦ absurd (ne ((is_success_iff rc).0 t))
  | inr t ↦ t
]

module _ {lib : Libelf} (dw : Libdwarf lib) (words : HasWords dw) {S : Type 0}
    (cb : Callback S) where
  -- A result without where the reader stands.
  abbrev counted : Errno × Session dw × S → Outcome (Errno × ℕ × S)
  counted (rc, self, s) = ok (rc, self.dies, s)

  process-offers :
      (dbg : dw.Dbg) (cu_die : dw.Die) (m : ℕ) (gs : List Function) (end : Errno) (deep dies : ℕ)
      (s : S)
      → Children dw dbg (dw.child cu_die) m gs end
      → m < deep
      → process_die_and_siblings dw cb deep dbg cu_die dies s
        ≡ (offers cb gs end s >>= λ (rc, s'). ok (rc, dies, s'))
  unfolding process_die_and_siblings
  process-offers dbg cu_die m gs end deep dies s c h =
      siblings_loop-offers dw words cb dbg (dw.child cu_die) m gs end deep dies s c h

  -- Offers that end by a failure never succeed.
  offers_broken :
      {R : Type 0} (gs : List Function) (end : Errno) (s : S) (f g : Errno × S → Outcome R)
      → is_success end ≡ false
      → ((rc : Errno) (s' : S) → is_success rc ≡ false → f (rc, s') ≡ g (rc, s'))
      → (offers cb gs end s >>= f) ≡ (offers cb gs end s >>= g)
  unfolding offers
  offers_broken [] end s f g fails same = same end s fails
  offers_broken (h ∷ gs) end s f g fails same =
      bind_assoc (cb h s) _ f
      ∙ bind-ext (cb h s) _ _ (λ (rc, s'). elim (Bool-cases (is_success rc)) [
        | inl t ↦ rw (t) (offers_broken gs end s' f g fails same)
        | inr t ↦ rw (t) (same rc s' t)
      ])
      ∙ sym (bind_assoc (cb h s) _ g)

  -- Behind the children of a unit.
  abbrev next_unit : ℕ → ℕ → dw.Dbg → Errno × ℕ × S → Outcome (Errno × Session dw × S)
  next_unit deep fuel dbg (rc, dies, s) =
      let self : Session dw = record { dbg = dbg; dies = dies - 1 } in
      elim (is_success rc) [ false ↦ ok (rc, self, s) | true ↦ units_loop dw cb deep fuel self s ]

  next_unit_on :
      (deep fuel : ℕ) (dbg : dw.Dbg) (rc : Errno) (dies : ℕ) (s : S)
      → is_success rc ≡ true
      → next_unit deep fuel dbg (rc, dies + 1, s)
        ≡ units_loop dw cb deep fuel (record { dbg = dbg; dies = dies }) s
  next_unit_on deep fuel dbg rc dies s t =
      rw (next_unit, t)
        (ap (λ k. units_loop dw cb deep fuel (record { dbg = dbg; dies = k }) s) (omega arith))

  next_unit_off :
      (deep fuel : ℕ) (dbg : dw.Dbg) (rc : Errno) (dies : ℕ) (s : S)
      → is_success rc ≡ false
      → (next_unit deep fuel dbg (rc, dies + 1, s) >>= counted) ≡ ok (rc, dies, s)
  next_unit_off deep fuel dbg rc dies s t =
      let same : dies + 1 - 1 ≡ dies = omega arith in rw (next_unit, t, same) refl

  -- The first round, for a unit with an entry.
  units_loop-suc :
      (deep : ℕ) (dbg : dw.Dbg) (cu_die : dw.Die) (m : ℕ) (gs : List Function) (end : Errno)
      (fuel dies : ℕ) (s : S)
      → (dw.next_cu_header dbg).0 ≡ got tt
      → dw.siblingof (behind dw dbg) none ≡ got cu_die
      → Children dw (behind dw dbg) (dw.child cu_die) m gs end
      → m < deep
      → (units_loop dw cb deep (suc fuel) (record { dbg = dbg; dies = dies }) s >>= counted) ≡ (
          offers cb gs end s >>= λ (rc, s').
          next_unit deep fuel (behind dw dbg) (rc, dies + 1, s') >>= counted)
  unfolding units_loop
  units_loop-suc deep dbg cu_die m gs end fuel dies s e e' c small =
      rw
        (
          e,
          units_loop,
          e',
          process-offers (behind dw dbg) cu_die m gs end deep (dies + 1) s c small,
        )
        (ap (λ o. o >>= counted)
            (bind_assoc (offers cb gs end s) _ (next_unit deep fuel (behind dw dbg)))
          ∙ bind_assoc (offers cb gs end s) _ counted)

  units_loop-offers :
      (deep : ℕ) (dbg : dw.Dbg) (n : ℕ) (fs : List Function) (end : Errno) (fuel dies : ℕ) (s : S)
      → Units dw deep dbg n fs end
      → n < fuel
      → (units_loop dw cb deep fuel (record { dbg = dbg; dies = dies }) s >>= counted)
        ≡ (offers cb fs end s >>= λ (rc, s'). ok (rc, dies, s'))
  unfolding units_loop offers is_success
  units_loop-offers deep dbg k hs code zero dies s u h = absurd (omega arith)
  units_loop-offers deep dbg k hs code (suc fuel) dies s (none_left e) h = rw (e, units_loop) refl
  units_loop-offers deep dbg k hs code (suc fuel) dies s (unreadable e) h = rw (e, units_loop) refl
  units_loop-offers deep dbg k hs code (suc fuel) dies s (spoiled e e') h =
      rw (e, units_loop, e') refl
  units_loop-offers deep dbg k hs code (suc fuel) dies s (entryless {n} {fs} {end} e e' u) h =
      rw (e, units_loop, e')
        (units_loop-offers deep (behind dw dbg) n fs end fuel dies s u (omega arith))
  units_loop-offers deep dbg k hs code (suc fuel) dies s
        (unit {cu_die} {m} {n} {gs} {fs} {end} e e' c small u) h =
      units_loop-suc deep dbg cu_die m gs success fuel dies s e e' c small
      ∙ (bind-ext (offers cb gs success s) _ _ (λ (rc, s'). elim (Bool-cases (is_success rc)) [
        | inl t ↦
            ap (λ o. o >>= counted) (next_unit_on deep fuel (behind dw dbg) rc dies s' t)
            ∙ units_loop-offers deep (behind dw dbg) n fs code fuel dies s' u (omega arith)
            ∙ rw (go_on, t) refl
        | inr t ↦ next_unit_off deep fuel (behind dw dbg) rc dies s' t ∙ rw (go_on, t) refl
      ])
          ∙ sym (bind_assoc (offers cb gs success s) (go_on cb fs code) _)
          ∙ ap (λ o. o >>= λ (rc, s'). ok (rc, dies, s')) (sym (offers-append cb gs fs code s)))
  units_loop-offers deep dbg k hs code (suc fuel) dies s
        (broken {cu_die} {m} {gs} {end} e e' c ne small) h =
      units_loop-suc deep dbg cu_die m gs code fuel dies s e e' c small
      ∙ offers_broken gs code s _ _ (is_success_off code ne)
          (λ rc s' t. next_unit_off deep fuel (behind dw dbg) rc dies s' t)

  abbrev marked : Errno × ℕ × S → Outcome (Errno × Option ℕ × S)
  marked (rc, dies, s) = ok (rc, some dies, s)

  -- Where low addresses are machine words, and the units before the reader, and the entries in each,
  -- are fewer than the fuel, the walk is the reference walk: it offers the callback the functions
  -- that the entries name, in turn until it fails, and ends by the code that stands behind the last.
  -- However it ends, it has given back each entry that it has obtained.
  pub foreach_function-offers :
      (deep : ℕ) (dbg : dw.Dbg) (n : ℕ) (fs : List Function) (end : Errno) (fuel dies : ℕ) (s : S)
      → Units dw deep dbg n fs end
      → n < fuel
      → (foreach_function dw cb deep fuel (at (record { dbg = dbg; dies = dies })) s >>= reported)
        ≡ (offers cb fs end s >>= giving_back dies)
  unfolding foreach_function
  foreach_function-offers deep dbg n fs end fuel dies s u h =
      bind_assoc (units_loop dw cb deep fuel (record { dbg = dbg; dies = dies }) s) _ _
      ∙ sym (
          bind_assoc (units_loop dw cb deep fuel (record { dbg = dbg; dies = dies }) s) counted
            marked)
      ∙ ap (λ o. o >>= marked) (units_loop-offers deep dbg n fs end fuel dies s u h)
      ∙ bind_assoc (offers cb fs end s) _ _
