-- ===== src/Metadata/Dwarf/Entries.antt =====
-- What the children of a unit name, read off the entries one by one, and the loop over them.
use librave.Base.{
  ℕ, ◌%◌, ◌^◌, add64, sub64, zero, suc, ◌+◌, ◌-◌, ◌<◌, ◌≡◌, refl, sym, ap, ◌∙◌, true, false, List,
  [], ◌∷◌, some, arith, ◌==◌, if◌then◌else◌, Outcome, ok, ◌>>=◌, bind_assoc, bind-ext, inl, inr,
  ◌⊎◌, Bool-cases,
}
use librave.Errno.{Errno, success, edwarf, is_success}
use librave.Elf.Libelf.{Libelf}
use librave.Transform.Data.{Function}
use librave.Metadata.{Callback}
use librave.Metadata.Laws.{offers}
use librave.Metadata.Libdwarf.{Answer, got, no_entry, error, Libdwarf}
use librave.Metadata.Dwarf.{
  dw_tag_subprogram, dw_form_class_constant, obtained, function_at, get_function_hilo,
  process_entry, siblings_loop,
}

-- The function from an address on, to another one or of a number of bytes.
abbrev pub described : ℕ → ℕ → ℕ → Function
described lo hi formclass = record {
  addr = lo;
  len = if formclass == dw_form_class_constant then hi % 2 ^ 64 else sub64 hi lo;
}

function_at_lem :
    (lo hi formclass : ℕ) → lo < 2 ^ 64 → function_at lo hi formclass ≡ described lo hi formclass
function_at_lem lo hi formclass h = elim (Bool-cases (formclass == dw_form_class_constant)) [
  | inr t ↦ rw (t) refl
  | inl t ↦
      let same : sub64 (add64 hi lo) lo ≡ hi % 2 ^ 64 = omega arith in
      rw (t) (ap (λ l. record { addr = lo; len = l }) same)
]

-- That function, if both numbers are there.
abbrev pub range : Answer ℕ → Answer (ℕ × ℕ) → Answer Function
range error hi = error
range no_entry hi = no_entry
range (got lo) error = error
range (got lo) no_entry = no_entry
range (got lo) (got (hi, formclass)) = got (described lo hi formclass)

-- What an entry names: a function, nothing, or it cannot be read.
abbrev pub named : Answer ℕ → Answer Function → Answer Function
named error f = error
named no_entry f = error
named (got tag) f = if tag == dw_tag_subprogram then f else no_entry

abbrev pub names : {lib : Libelf} (dw : Libdwarf lib) → dw.Die → Answer Function
names dw die = named (dw.tag die) (range (dw.lowpc die) (dw.highpc die))

-- The entries from an answer on name some functions, and end by a code: success behind the last
-- one, `edwarf` at one that cannot be read.
pub data Children {lib : Libelf} (dw : Libdwarf lib) (dbg : dw.Dbg)
    : Answer dw.Die → ℕ → List Function → Errno → Type 0 where
  none_left : Children dw dbg no_entry 0 [] success
  unreadable : Children dw dbg error 0 [] edwarf
  spoiled : {die : dw.Die} → names dw die ≡ error → Children dw dbg (got die) 0 [] edwarf
  skipped :
      {die : dw.Die} {n : ℕ} {fs : List Function} {end : Errno}
      → names dw die ≡ no_entry
      → Children dw dbg (dw.siblingof dbg (some die)) n fs end
      → Children dw dbg (got die) (suc n) fs end
  listed :
      {die : dw.Die} {n : ℕ} {f : Function} {fs : List Function} {end : Errno}
      → names dw die ≡ got f
      → Children dw dbg (dw.siblingof dbg (some die)) n fs end
      → Children dw dbg (got die) (suc n) (f ∷ fs) end

pub Answer-cases :
    {A : Type 0} (a : Answer A) → ((x : A) × (a ≡ got x)) ⊎ (a ≡ no_entry) ⊎ (a ≡ error)
Answer-cases (got a) = inl (a, refl)
Answer-cases no_entry = inr (inl refl)
Answer-cases error = inr (inr refl)

-- Low addresses are machine words.
abbrev pub HasWords : {lib : Libelf} → Libdwarf lib → Type 0
HasWords dw = (die : dw.Die) (lo : ℕ) → dw.lowpc die ≡ got lo → lo < 2 ^ 64

module _ {lib : Libelf} (dw : Libdwarf lib) (words : HasWords dw) {S : Type 0}
    (cb : Callback S) where
  -- What the callback's result is, by what an entry names.
  abbrev visit : Answer Function → S → Outcome (Errno × S)
  visit error s = ok (edwarf, s)
  visit no_entry s = ok (success, s)
  visit (got f) s = cb f s

  get_function_hilo_lem :
      (die : dw.Die) (s : S)
      → get_function_hilo dw cb die s ≡ visit (range (dw.lowpc die) (dw.highpc die)) s
  unfolding get_function_hilo
  get_function_hilo_lem die s = elim (Answer-cases (dw.lowpc die)) [
    | inr (inl e) ↦ rw (e, get_function_hilo) refl
    | inr (inr e) ↦ rw (e, get_function_hilo) refl
    | inl (lo, e) ↦ elim (Answer-cases (dw.highpc die)) [
      | inr (inl e') ↦ rw (e, get_function_hilo, e') refl
      | inr (inr e') ↦ rw (e, get_function_hilo, e') refl
      | inl ((hi, formclass), e') ↦
          rw (e, get_function_hilo, e')
            (ap (λ f. cb f s) (function_at_lem lo hi formclass (words die lo e)))
    ]
  ]

  -- Behind one entry.
  abbrev next_round : ℕ → dw.Dbg → dw.Die → ℕ → Errno × S → Outcome (Errno × ℕ × S)
  next_round fuel dbg die dies (rc, s) = elim (is_success rc) [
    | false ↦ ok (rc, dies - 1, s)
    | true ↦
        siblings_loop dw cb fuel dbg (dw.siblingof dbg (some die))
          (obtained (dw.siblingof dbg (some die)) dies - 1) s
  ]

  siblings_loop-suc :
      (fuel : ℕ) (dbg : dw.Dbg) (die : dw.Die) (dies : ℕ) (s : S)
      → siblings_loop dw cb (suc fuel) dbg (got die) dies s
        ≡ (visit (names dw die) s >>= next_round fuel dbg die dies)
  unfolding siblings_loop process_entry is_success
  siblings_loop-suc fuel dbg die dies s = elim (Answer-cases (dw.tag die)) [
    | inr (inl e) ↦ rw (e, siblings_loop) refl
    | inr (inr e) ↦ rw (e, siblings_loop) refl
    | inl (tag, e) ↦ elim (Bool-cases (tag == dw_tag_subprogram)) [
      | inr t ↦ rw (e, siblings_loop, t) refl
      | inl t ↦ rw (e, siblings_loop, t, get_function_hilo_lem die s) refl
    ]
  ]

  obtained_sub :
      {A : Type 0} (a : Answer A) (dies : ℕ) → obtained a (dies + 1) - 1 ≡ obtained a dies
  obtained_sub (got a) dies = omega arith
  obtained_sub no_entry dies = omega arith
  obtained_sub error dies = omega arith

  next_round_on :
      (fuel : ℕ) (dbg : dw.Dbg) (die : dw.Die) (dies : ℕ) (rc : Errno) (s : S)
      → is_success rc ≡ true
      → next_round fuel dbg die (dies + 1) (rc, s)
        ≡ siblings_loop dw cb fuel dbg
            (dw.siblingof dbg (some die))
            (obtained (dw.siblingof dbg (some die)) dies)
            s
  next_round_on fuel dbg die dies rc s t =
      rw (next_round, t)
        (ap (λ k. siblings_loop dw cb fuel dbg (dw.siblingof dbg (some die)) k s)
          (obtained_sub (dw.siblingof dbg (some die)) dies))

  next_round_off :
      (fuel : ℕ) (dbg : dw.Dbg) (die : dw.Die) (dies : ℕ) (rc : Errno) (s : S)
      → is_success rc ≡ false
      → next_round fuel dbg die (dies + 1) (rc, s) ≡ ok (rc, dies, s)
  next_round_off fuel dbg die dies rc s t =
      let same : dies + 1 - 1 ≡ dies = omega arith in rw (next_round, t, same) refl

  -- The loop offers the named functions in turn, and gives back every entry that it has obtained.
  pub siblings_loop-offers :
      (dbg : dw.Dbg) (next : Answer dw.Die) (n : ℕ) (fs : List Function) (end : Errno)
      (fuel dies : ℕ) (s : S)
      → Children dw dbg next n fs end
      → n < fuel
      → siblings_loop dw cb fuel dbg next (obtained next dies) s
        ≡ (offers cb fs end s >>= λ (rc, s'). ok (rc, dies, s'))
  unfolding siblings_loop offers is_success
  siblings_loop-offers dbg next m gs code zero dies s c h = absurd (omega arith)
  siblings_loop-offers dbg next m gs code (suc fuel) dies s none_left h = refl
  siblings_loop-offers dbg next m gs code (suc fuel) dies s unreadable h = refl
  siblings_loop-offers dbg next m gs code (suc fuel) dies s (spoiled {die} e) h =
      siblings_loop-suc fuel dbg die (dies + 1) s
      ∙ (ap (λ a. visit a s >>= next_round fuel dbg die (dies + 1)) e
          ∙ next_round_off fuel dbg die dies edwarf s refl)
  siblings_loop-offers dbg next m gs code (suc fuel) dies s (skipped {die} {n} {fs} {end} e c) h =
      siblings_loop-suc fuel dbg die (dies + 1) s
      ∙ (ap (λ a. visit a s >>= next_round fuel dbg die (dies + 1)) e
          ∙ next_round_on fuel dbg die dies success s refl
          ∙ siblings_loop-offers dbg (dw.siblingof dbg (some die)) n gs code fuel dies s c
              (omega arith))
  siblings_loop-offers dbg next m gs code (suc fuel) dies s (listed {die} {n} {f} {fs} {end} e c)
        h =
      siblings_loop-suc fuel dbg die (dies + 1) s
      ∙ (ap (λ a. visit a s >>= next_round fuel dbg die (dies + 1)) e
          ∙ bind-ext (cb f s) _ _ (λ (rc, s'). elim (Bool-cases (is_success rc)) [
            | inl t ↦
                next_round_on fuel dbg die dies rc s' t
                ∙ siblings_loop-offers dbg (dw.siblingof dbg (some die)) n fs code fuel dies s' c
                    (omega arith)
                ∙ rw (t) refl
            | inr t ↦ next_round_off fuel dbg die dies rc s' t ∙ rw (t) refl
          ])
          ∙ sym (bind_assoc (cb f s) _ _))
