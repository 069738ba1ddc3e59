-- ===== src/Metadata/Tests.antt =====
-- The sample debug information, over the theorems of the walk.
use librave.Base.{◌≤◌, ◌≡◌, refl, some, [], ◌∷◌, arith, ok, ◌>>=◌, Settles}
use librave.Errno.{success, is_success}
use librave.Memory.{at}
use librave.Metadata.Laws.{offers}
use librave.Metadata.Dwarf.{foreach_function}
use librave.Metadata.Dwarf.Entries.{Children}
use librave.Metadata.Dwarf.Units.{Units, held, reported, foreach_function-offers}
use librave.Metadata.Dwarf.Finite.{foreach_function-Settles}
use librave.Metadata.Sample.{two_units, two_units-DwarfLaws, first, last, collect, count}

second_unit : Units two_units 4 1 1 (last ∷ []) success
second_unit =
    Units.unit refl refl (Children.listed refl Children.none_left) (omega arith)
      (Units.none_left refl)

whole_info : Units two_units 4 2 2 (first ∷ last ∷ last ∷ []) success
whole_info =
    Units.unit refl refl
      (Children.listed refl (Children.skipped refl (Children.listed refl Children.none_left)))
      (omega arith) second_unit

foreach_function-offers_example :
    (foreach_function two_units collect 4 3 (at (record { dbg = 2; dies = 0 })) [] >>= reported)
    ≡ ok (success, some 0, last ∷ last ∷ first ∷ [])
unfolding offers is_success
foreach_function-offers_example =
    foreach_function-offers two_units two_units-DwarfLaws.low_word collect 4 2 2
      (first ∷ last ∷ last ∷ []) success 3 0 [] whole_info (omega arith)

foreach_function-Settles_example :
    Settles ⊥
      (λ (rc, self, n). (held self ≡ some 0) × (5 ≤ n))
      (foreach_function two_units count 4 3 (at (record { dbg = 2; dies = 0 })) 5)
foreach_function-Settles_example =
    foreach_function-Settles two_units 4 3 two_units-DwarfLaws count ⊥ (λ n. 5 ≤ n)
      (λ f n words h. omega arith) 2 0 5 (omega arith) (omega arith)
