-- ===== src/Metadata/Dwarf/Finite.antt =====
-- Why the walk ends: libdwarf comes to every entry and to every unit once.
use librave.Base.{
  ℕ, zero, suc, ◌+◌, ◌-◌, subst, Settles-weaken, ◌<◌, ◌≤◌, ◌≡◌, refl, sym, List, All, All-append,
  ap, ◌∙◌, Option, ◌^◌, ◌==◌, if◌then◌else◌, [], ◌∷◌, ◌++◌, none, some, arith, inl, inr, Bool-cases,
  Settles, Settles-rename, Settles-renamed,
}
use librave.Errno.{Errno, success, edwarf, is_success, is_success_iff}
use librave.Memory.{at}
use librave.Elf.Libelf.{Libelf}
use librave.Transform.Data.{Function}
use librave.Metadata.{Callback}
use librave.Metadata.Laws.{IsWords, Keeps, offers, offers-Settles}
use librave.Metadata.Libdwarf.{Answer, got, no_entry, error, Libdwarf}
use librave.Metadata.Dwarf.{dw_tag_subprogram, foreach_function}
use librave.Metadata.Dwarf.Entries.{
  Children, described, HasWords, range, named, names, Answer-cases,
}
use librave.Metadata.Dwarf.Units.{Units, behind, held, foreach_function-offers}

-- Each entry stands closer to the last one than the one before it, and each unit has fewer than
-- `deep` entries; a reader that has been opened has fewer than `fuel` units before it. Addresses are
-- machine words.
pub record DwarfLaws {lib : Libelf} (dw : Libdwarf lib) (deep fuel : ℕ) : Type 0 where
  pub die_rank : dw.Dbg → dw.Die → ℕ
  pub unit_rank : dw.Dbg → ℕ
  pub has_room : 0 < deep
  pub child_below :
      (dbg : dw.Dbg) (cu_die die : dw.Die) → dw.child cu_die ≡ got die → die_rank dbg die + 1 < deep
  pub sibling_below :
      (dbg : dw.Dbg) (die die' : dw.Die)
      → dw.siblingof dbg (some die) ≡ got die'
      → die_rank dbg die' < die_rank dbg die
  pub unit_below :
      (dbg : dw.Dbg)
      → (dw.next_cu_header dbg).0 ≡ got tt
      → unit_rank (behind dw dbg) < unit_rank dbg
  pub opened_below :
      (elf : Option lib.Elf) (dbg : dw.Dbg) → dw.elf_init elf ≡ some dbg → unit_rank dbg < fuel
  pub low_word : HasWords dw

range-IsWords :
    (lo : Answer ℕ) (hi : Answer (ℕ × ℕ)) (f : Function)
    → ((a : ℕ) → lo ≡ got a → a < 2 ^ 64)
    → range lo hi ≡ got f
    → IsWords f
range-IsWords error hi f low e = absurd (cc)
range-IsWords no_entry hi f low e = absurd (cc)
range-IsWords (got lo) error f low e = absurd (cc)
range-IsWords (got lo) no_entry f low e = absurd (cc)
range-IsWords (got lo) (got (hi, formclass)) f low e =
    let same : described lo hi formclass ≡ f = cc in subst IsWords same (low lo refl, ground arith)

named-IsWords :
    (tag : Answer ℕ) (a : Answer Function) (f : Function)
    → (a ≡ got f → IsWords f)
    → named tag a ≡ got f
    → IsWords f
named-IsWords error a f words e = absurd (cc)
named-IsWords no_entry a f words e = absurd (cc)
named-IsWords (got tag) a f words e = elim (Bool-cases (tag == dw_tag_subprogram)) [
  | inl t ↦ words (ap (λ b. if b then a else no_entry) (sym t) ∙ e)
  | inr t ↦
      let none_named : no_entry ≡ got f = ap (λ b. if b then a else no_entry) (sym t) ∙ e in
      absurd (cc)
]

module _ {lib : Libelf} (dw : Libdwarf lib) (deep : ℕ) (fuel : ℕ)
    (laws : DwarfLaws dw deep fuel) where
  names-IsWords : (die : dw.Die) (f : Function) → names dw die ≡ got f → IsWords f
  names-IsWords die f e =
      named-IsWords (dw.tag die) (range (dw.lowpc die) (dw.highpc die)) f
        (range-IsWords (dw.lowpc die) (dw.highpc die) f (laws.low_word die)) e

  entries_from :
      (dbg : dw.Dbg) (n : ℕ) (next : Answer dw.Die)
      → ((die : dw.Die) → next ≡ got die → laws.die_rank dbg die < n)
      → (m : ℕ) × (fs : List Function) × (end : Errno) × All IsWords fs
        × (m ≤ n)
        × Children dw dbg next m fs end
  entries_from dbg n no_entry h = (0, [], success, tt, omega arith, Children.none_left)
  entries_from dbg n error h = (0, [], edwarf, tt, omega arith, Children.unreadable)
  entries_from dbg zero (got die) h = let low = h die refl in absurd (omega arith)
  entries_from dbg (suc n) (got die) h =
      let low = h die refl in
      let (m, fs, end, words, small, c) =
        entries_from dbg n (dw.siblingof dbg (some die))
          (λ die' e. let lower = laws.sibling_below dbg die die' e in omega arith) in
      elim (Answer-cases (names dw die)) [
        | inl (f, e) ↦
            (suc m, f ∷ fs, end, (names-IsWords die f e, words), omega arith, Children.listed e c)
        | inr (inl e) ↦ (suc m, fs, end, words, omega arith, Children.skipped e c)
        | inr (inr e) ↦ (0, [], edwarf, tt, omega arith, Children.spoiled e)
      ]

  entries_in :
      (dbg : dw.Dbg) (cu_die : dw.Die)
      → (m : ℕ) × (fs : List Function) × (end : Errno) × All IsWords fs
        × (m < deep)
        × Children dw dbg (dw.child cu_die) m fs end
  entries_in dbg cu_die =
      let room = laws.has_room in
      let (m, fs, end, words, small, c) =
        entries_from dbg (deep - 1) (dw.child cu_die)
          (λ die e. let low = laws.child_below dbg cu_die die e in omega arith) in
      (m, fs, end, words, omega arith, c)

  -- The units from a reader on, fewer than a number that the reader's rank is below.
  walked_from :
      (n : ℕ) (dbg : dw.Dbg)
      → laws.unit_rank dbg < n
      → (m : ℕ) × (fs : List Function) × (end : Errno) × All IsWords fs
        × (m < n)
        × Units dw deep dbg m fs end
  walked_from zero dbg h = absurd (omega arith)
  walked_from (suc n) dbg h = elim (Answer-cases (dw.next_cu_header dbg).0) [
    | inr (inl e) ↦ (0, [], success, tt, omega arith, Units.none_left e)
    | inr (inr e) ↦ (0, [], edwarf, tt, omega arith, Units.unreadable e)
    | inl (u, e) ↦
        let low = laws.unit_below dbg e in
        let (k, fs, end, words, small, rest) = walked_from n (behind dw dbg) (omega arith) in
        elim (Answer-cases (dw.siblingof (behind dw dbg) none)) [
          | inr (inl e') ↦ (suc k, fs, end, words, omega arith, Units.entryless e e' rest)
          | inr (inr e') ↦ (0, [], edwarf, tt, omega arith, Units.spoiled e e')
          | inl (cu_die, e') ↦
              let (m, gs, code, words', few, c) = entries_in (behind dw dbg) cu_die in
              elim (Bool-cases (is_success code)) [
                | inl t ↦ (
                  suc k,
                  gs ++ fs,
                  end,
                  All-append IsWords gs fs words' words,
                  omega arith,
                  Units.unit e e'
                      (subst (Children dw (behind dw dbg) (dw.child cu_die) m gs)
                        ((is_success_iff code).0 t) c)
                      few rest,
                )
                | inr t ↦ (
                  0,
                  gs,
                  code,
                  words',
                  omega arith,
                  Units.broken e e' c
                      (λ same. let yes = (is_success_iff code).1 same in absurd (cc)) few,
                )
              ]
        ]
  ]

  module _ {S : Type 0} (cb : Callback S) where
    -- On entries and units that libdwarf comes to once, with low addresses that are machine words and
    -- fuel for the units, a walk with a callback that ends and keeps a property of its state ends: the
    -- property is kept and every entry is given back, or a call of the callback faults.
    pub foreach_function-Settles :
        (D : Type 0) (P : S → Type 0)
        → Keeps cb D P
        → (dbg : dw.Dbg) (dies : ℕ) (s : S) → laws.unit_rank dbg < fuel
        → P s
        → Settles D
            (λ (rc, self, s'). (held self ≡ some dies) × P s')
            (foreach_function dw cb deep fuel (at (record { dbg = dbg; dies = dies })) s)
    foreach_function-Settles D P keeps dbg dies s h p =
        let (m, fs, end, words, small, u) = walked_from fuel dbg h in
        Settles-rename D (λ (rc, k, s'). (k ≡ some dies) × P s')
          (λ (rc, self, s'). (rc, held self, s'))
          (foreach_function dw cb deep fuel (at (record { dbg = dbg; dies = dies })) s)
          (rw (foreach_function-offers dw laws.low_word cb deep dbg m fs end fuel dies s u small) (
            Settles-renamed D (λ (rc, k, s'). (k ≡ some dies) × P s')
              (λ (rc, s'). (rc, some dies, s')) (offers cb fs end s)
              (Settles-weaken D (λ (rc, s'). P s') (λ (rc, s'). (some dies ≡ some dies) × P s')
                (offers cb fs end s) (offers-Settles cb D P keeps fs end s words p)
                (λ (rc, s') p'. (refl, p')))))
