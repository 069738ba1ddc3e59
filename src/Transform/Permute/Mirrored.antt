-- ===== src/Transform/Permute/Mirrored.antt =====
-- The permuted epilogue mirrors the permuted prologue.
use mathlib.Core.Option
use librave.Base.{
  ℕ, ◌-◌, ◌<◌, ◌≤◌, ◌^◌, ◌≡◌, sym, ap, ◌∙◌, Option, none, some, List, map, reverse, Perm, arith,
  length, length-map, length-reverse, replicate, get_elem?, get_elem?-some, lt_of_get_elem?,
  get_elem?-map, get_elem?-reverse, get_elem?-ext, ok,
}
use librave.Base.Orders.{IsOrder}
use librave.Transform.Dr.{Dr}
use librave.Transform.Sets.{InstrSet}
use librave.Transform.Mirror.Reverse.{pushed, popped}
use librave.Transform.Encode.{arrange}
use librave.Transform.Encode.Arrange.{arrange_lem}
use librave.Transform.Permute.{mirror_order}
use librave.Transform.Permute.Eorder.{mirror_order_lem}

-- The registers that the slots push, and those that they pop; a slot that holds no instruction has
-- none.
abbrev pub pushed_slots : (dr : Dr) → List (Option dr.Instr) → List (Option ℕ)
pushed_slots dr = map (Option.map dr.src_reg)

abbrev pub popped_slots : (dr : Dr) → List (Option dr.Instr) → List (Option ℕ)
popped_slots dr = map (Option.map dr.dst_reg)

module _ (dr : Dr) (n : ℕ) (ps es : List dr.Instr) (sizep : length ps ≡ n) (sizee : length es ≡ n)
    (mirrors : map dr.dst_reg es ≡ reverse (map dr.src_reg ps)) where
  -- The instruction of the epilogue at place `n - 1 - i` pops what that of the prologue at `i`
  -- pushes.
  opposite :
      (i : ℕ) (x y : dr.Instr)
      → get_elem? ps i ≡ some x
      → get_elem? es (n - 1 - i) ≡ some y
      → i < n
      → dr.dst_reg y ≡ dr.src_reg x
  opposite i x y ex ey h =
      let left : get_elem? (map dr.dst_reg es) (n - 1 - i) ≡ some (dr.dst_reg y) =
        get_elem?-map dr.dst_reg es (n - 1 - i) ∙ ap (Option.map dr.dst_reg) ey in
      let whole = length-map dr.src_reg ps in
      let back : length (map dr.src_reg ps) - 1 - (n - 1 - i) ≡ i = omega (arith, whole) in
      let right : get_elem? (reverse (map dr.src_reg ps)) (n - 1 - i) ≡ some (dr.src_reg x) =
        get_elem?-reverse (map dr.src_reg ps) (n - 1 - i) (omega (arith, whole))
        ∙ ap (get_elem? (map dr.src_reg ps)) back
        ∙ get_elem?-map dr.src_reg ps i
        ∙ ap (Option.map dr.src_reg) ex in
      cc (sym left ∙ ap (λ l. get_elem? l (n - 1 - i)) mirrors ∙ right)

module _ (dr : Dr) (pro epi : InstrSet dr.Instr) (n : ℕ) (order : List ℕ)
    (is_order : IsOrder n order) (small : n ≤ 2 ^ 31) (sizep : length pro.instrs ≡ n)
    (sizee : length epi.instrs ≡ n) (mirrors : popped dr epi ≡ reverse (pushed dr pro)) where
  -- For `n` up to `2 ^ 31`: scattering a prologue of `n` instructions by an order of `n` slots, and an epilogue that
  -- mirrors it by the reflected order, stays in bounds and fills every slot; each result holds the
  -- instructions of its set, and the registers that the new epilogue pops are those that the new
  -- prologue pushes, in reverse.
  pub arrange-mirrors :
      (eorder : List ℕ) × (outp oute : List (Option dr.Instr)) × (mirror_order n order ≡ ok eorder)
      × (arrange dr pro.instrs order 0 (replicate n none) ≡ ok outp)
      × (arrange dr epi.instrs eorder 0 (replicate n none) ≡ ok oute)
      × Perm outp (map some pro.instrs)
      × Perm oute (map some epi.instrs)
      × (popped_slots dr oute ≡ reverse (pushed_slots dr outp))
  arrange-mirrors =
      let (eorder, runo, is_eorder, reflects) = mirror_order_lem n order is_order small in
      let (outp, runp, lp, atp, permp) = arrange_lem dr n order is_order small pro.instrs sizep in
      let (oute, rune, le, ate, perme) = arrange_lem dr n eorder is_eorder small epi.instrs sizee in
      let ps = pushed_slots dr outp in
      let whole = length-map (Option.map dr.src_reg) outp in
      let whole' = length-map (Option.map dr.dst_reg) oute in
      let each : (j : ℕ)
          → j < length (popped_slots dr oute)
          → get_elem? (popped_slots dr oute) j ≡ get_elem? (reverse ps) j =
        λ j hj.
          let h : j < n = omega (arith, whole', le) in
          let (i, ei) = is_order.hit (n - 1 - j) (omega arith) in
          let hi = lt_of_get_elem? order i ei in
          let (x, ex) = get_elem?-some pro.instrs i (omega (arith, is_order.size)) in
          let (y, ey) = get_elem?-some epi.instrs (n - 1 - i) (omega (arith, is_order.size)) in
          let slotp = atp i (n - 1 - j) x ex ei in
          let back : n - 1 - (n - 1 - j) ≡ j = omega arith in
          let slote = ate (n - 1 - i) j y ey (rw back at (reflects i (n - 1 - j) ei)) in
          let same =
            opposite dr n pro.instrs epi.instrs sizep sizee mirrors i x y ex ey
              (omega (arith, is_order.size)) in
          let left =
            get_elem?-map (Option.map dr.dst_reg) oute j
            ∙ ap (Option.map (Option.map dr.dst_reg)) slote in
          let index : length ps - 1 - j ≡ n - 1 - j = omega (arith, whole, lp) in
          let right =
            get_elem?-reverse ps j (omega (arith, whole, lp))
            ∙ ap (get_elem? ps) index
            ∙ get_elem?-map (Option.map dr.src_reg) outp (n - 1 - j)
            ∙ ap (Option.map (Option.map dr.src_reg)) slotp in
          left ∙ ap (λ (r : ℕ). some (some r)) same ∙ sym right in
      (
        eorder,
        outp,
        oute,
        runo,
        runp,
        rune,
        permp,
        perme,
        get_elem?-ext (popped_slots dr oute) (reverse ps)
            (omega (arith, whole, whole', lp, le, length-reverse ps)) each,
      )
