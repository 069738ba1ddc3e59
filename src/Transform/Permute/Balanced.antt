-- ===== src/Transform/Permute/Balanced.antt =====
-- A permuted function still pops in its epilogues what it pushes in its prologue.
pub mod Epilogues
pub mod Whole
pub mod Every
use mathlib.Core.Option
use mathlib.Mathlib.Data.List.Basic.{map-reverse_aux}
use mathlib.Core.List.Perm
use librave.Base.{
  ℕ, ◌≤◌, ◌^◌, ◌≡◌, refl, sym, ap, ◌∙◌, Option, none, some, List, [], ◌∷◌, map, reverse, Perm,
  length, replicate, ok, ok-injective,
}
use librave.Base.Orders.{IsOrder}
use librave.Transform.Dr.{Dr}
use librave.Transform.Sets.{InstrSet}
use librave.Transform.Mirror.Reverse.{pushed, popped}
use librave.Transform.Encode.{arrange}
use librave.Transform.Encode.Slots.{somes, somes-map, arrange-somes}
use librave.Transform.Permute.{mirror_order}
use librave.Transform.Permute.Mirrored.{pushed_slots, popped_slots, arrange-mirrors}

map-map-some :
    {A B : Type 0} (f : A → B) (xs : List A)
    → map (Option.map f) (map some xs) ≡ map some (map f xs)
map-map-some f [] = refl
map-map-some f (x ∷ xs) = ap (some (f x) ∷◌) (map-map-some f xs)

module _ (dr : Dr) (n : ℕ) (order eorder : List ℕ) (is_order : IsOrder n order)
    (is_eorder : IsOrder n eorder) (few : n ≤ 2 ^ 31) (mirrored : mirror_order n order ≡ ok eorder)
    (pro epi : InstrSet dr.Instr) (sizep : length pro.instrs ≡ n) (sizee : length epi.instrs ≡ n)
    (mirrors : popped dr epi ≡ reverse (pushed dr pro)) where
  -- The instructions of the epilogue in their new order.
  pub epilogue_in :
      (is : List dr.Instr)
      → arrange dr pro.instrs order 0 (replicate n none) ≡ ok (map some is)
      → (es : List dr.Instr) × (arrange dr epi.instrs eorder 0 (replicate n none)
          ≡ ok (map some es))
        × Perm es epi.instrs
        × (map dr.dst_reg es ≡ reverse (map dr.src_reg is))
  epilogue_in is arranged =
      let (eorder', outp, oute, runo, runp, rune, permp, perme, same) =
        arrange-mirrors dr pro epi n order is_order few sizep sizee mirrors in
      let (es, rune', perm) = arrange-somes dr n eorder is_eorder few epi.instrs sizee in
      let at_order : eorder' ≡ eorder = ok-injective (sym runo ∙ mirrored) in
      let at_pro : outp ≡ map some is = ok-injective (sym runp ∙ arranged) in
      let rune'' : arrange dr epi.instrs eorder 0 (replicate n none) ≡ ok oute =
        rw (at_order) at rune in
      let at_epi : oute ≡ map some es = ok-injective (sym rune'' ∙ rune') in
      let slots : popped_slots dr (map some es) ≡ reverse (pushed_slots dr (map some is)) =
        rw (at_pro, at_epi) at same in
      let pops = map dr.dst_reg es in
      let pushes = map dr.src_reg is in
      let sames : map some pops ≡ map some (reverse pushes) =
        sym (map-map-some dr.dst_reg es)
        ∙ slots
        ∙ ap reverse (map-map-some dr.src_reg is)
        ∙ sym (map-reverse_aux some pushes []) in
      (es, rune', perm, sym (somes-map pops) ∙ ap somes sames ∙ somes-map (reverse pushes))
