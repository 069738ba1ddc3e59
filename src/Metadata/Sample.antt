-- ===== src/Metadata/Sample.antt =====
-- Debug information of two units, on which the theorems of the walk are tried: three entries in the
-- first, one of them not a subprogram, and one in the second. A number for a reader says how many
-- units are left, and one for an entry how many stand behind it.
use librave.Base.{
  ℕ, zero, suc, ◌+◌, ◌-◌, ◌%◌, ◌^◌, ◌<◌, ◌≡◌, true, Option, none, some, List, ◌∷◌, arith, Outcome,
  ok,
}
use librave.Errno.{Errno, success}
use librave.Elf.Sample.{small}
use librave.Transform.Data.{Function}
use librave.Metadata.Libdwarf.{Answer, got, no_entry, Libdwarf}
use librave.Metadata.Dwarf.{dw_tag_subprogram, dw_form_class_constant}
use librave.Metadata.Dwarf.Finite.{DwarfLaws}

abbrev next_unit : ℕ → Answer (Unit {0}) × ℕ
next_unit zero = (no_entry, 0)
next_unit (suc n) = (got tt, n)

-- The entry of the first unit is 8, and that of the second 9.
abbrev sibling : ℕ → Option ℕ → Answer ℕ
sibling dbg none = got (9 - dbg)
sibling dbg (some zero) = no_entry
sibling dbg (some (suc n)) = got n

abbrev tag_of : ℕ → Answer ℕ
tag_of (suc zero) = got 5
tag_of _ = got dw_tag_subprogram

abbrev low_of : ℕ → Answer ℕ
low_of zero = got 0x1040
low_of _ = got 0x1000

abbrev high_of : ℕ → Answer (ℕ × ℕ)
high_of zero = got (0x1060, 1)
high_of _ = got (0x30, dw_form_class_constant)

abbrev pub two_units : Libdwarf small
two_units = record {
  Dbg = ℕ;
  Die = ℕ;
  elf_init = λ elf. some 2;
  finish = λ dbg. true;
  next_cu_header = next_unit;
  siblingof = sibling;
  child = λ die. got (die % 3);
  tag = tag_of;
  lowpc = low_of;
  highpc = high_of;
}

pub sibling_lower : (dbg die die' : ℕ) → sibling dbg (some die) ≡ got die' → die' < die
sibling_lower dbg zero die' e = absurd (cc)
sibling_lower dbg (suc die) die' e = let same : die ≡ die' = cc in omega arith

pub child_low : (die die' : ℕ) → Answer.got (die % 3) ≡ got die' → die' + 1 < 4
child_low die die' e = let same : die % 3 ≡ die' = cc in omega arith

pub unit_lower : (dbg : ℕ) → (next_unit dbg).0 ≡ got tt → (next_unit dbg).1 < dbg
unit_lower zero e = absurd (cc)
unit_lower (suc dbg) e = omega arith

pub opened_two : (dbg : ℕ) → Option.some 2 ≡ some dbg → dbg < 3
opened_two dbg e = let same : 2 ≡ dbg = cc in omega arith

pub low_words : (die lo : ℕ) → low_of die ≡ got lo → lo < 2 ^ 64
low_words zero lo e = let same : 0x1040 ≡ lo = cc in omega arith
low_words (suc die) lo e = let same : 0x1000 ≡ lo = cc in omega arith

abbrev pub two_units-DwarfLaws : DwarfLaws two_units 4 3
two_units-DwarfLaws = record {
  die_rank = λ dbg die. die;
  unit_rank = λ dbg. dbg;
  has_room = omega arith;
  child_below = λ dbg. child_low;
  sibling_below = sibling_lower;
  unit_below = unit_lower;
  opened_below = λ elf. opened_two;
  low_word = low_words;
}

-- The two functions, and callbacks that collect and count what they are offered.
abbrev pub first : Function
first = record { addr = 0x1000; len = 0x30 }

abbrev pub last : Function
last = record { addr = 0x1040; len = 0x20 }

abbrev pub collect : Function → List Function → Outcome (Errno × List Function)
collect f fs = ok (success, f ∷ fs)

abbrev pub count : Function → ℕ → Outcome (Errno × ℕ)
count f n = ok (success, n + 1)
