-- ===== src/Transform/Permute/Eorder.antt =====
-- The order of the epilogue, from that of the prologue.
use native.Mathlib.Decide.{ℕ_discrete}
use librave.Base.{
  ℕ, zero, suc, ◌+◌, ◌-◌, ◌<◌, ◌≤◌, ◌^◌, ◌≡◌, refl, ◌∙◌, List, some, arith, length, length-set,
  length-replicate, replicate, get_elem?, get_elem?-some, lt_of_get_elem?, set, get_elem?-set_self,
  get_elem?-set_ne, sub64, to_int, ok,
}
use librave.Base.Slots.{read-ok, write-ok}
use librave.Base.Orders.{IsOrder}
use librave.Transform.Permute.{mirror_loop, mirror_order}

-- From place `i` on the result is the reflection of the order, and before it is as it was.
record IsMirror (n : ℕ) (order : List ℕ) (i : ℕ) (before out : List ℕ) : Type 0 where
  size : length out ≡ length before
  kept : (j : ℕ) → j < i → get_elem? out j ≡ get_elem? before j
  mirrored :
      (j o : ℕ)
      → i ≤ j
      → j < n
      → get_elem? order (n - 1 - j) ≡ some o
      → get_elem? out j ≡ some (n - 1 - o)

module _ (n : ℕ) (order : List ℕ) (is_order : IsOrder n order) (small : n ≤ 2 ^ 31) where
  mirror_round :
      (rounds i o : ℕ) (eorder : List ℕ)
      → i < n
      → get_elem? order (n - 1 - i) ≡ some o
      → length eorder ≡ n
      → mirror_loop (suc rounds) i n order eorder
        ≡ mirror_loop rounds (i + 1) n order (set eorder i (n - 1 - o))
  unfolding mirror_loop
  mirror_round rounds i o eorder h eo size =
      let from : sub64 (sub64 n 1) i ≡ n - 1 - i = omega arith in
      let below = is_order.below (n - 1 - i) o eo in
      let value : to_int (sub64 (sub64 n 1) o) ≡ n - 1 - o = omega arith in
      rw (from, read-ok order (n - 1 - i) eo, value, write-ok eorder i (n - 1 - o) (omega arith))

  mirror_loop-IsMirror :
      (rounds i : ℕ) (eorder : List ℕ)
      → i + rounds ≡ n
      → length eorder ≡ n
      → (out : List ℕ) × (mirror_loop rounds i n order eorder ≡ ok out)
        × IsMirror n order i eorder out
  unfolding mirror_loop
  mirror_loop-IsMirror zero i eorder e size = (
    eorder,
    refl,
    record { size = refl; kept = λ j h. refl; mirrored = λ j o h g. absurd (omega arith) },
  )
  mirror_loop-IsMirror (suc rounds) i eorder e size =
      let (o, eo) = get_elem?-some order (n - 1 - i) (omega (arith, is_order.size)) in
      let written = set eorder i (n - 1 - o) in
      let (out, run, p) =
        mirror_loop-IsMirror rounds (i + 1) written (omega arith)
          (omega (arith, length-set eorder i (n - 1 - o))) in
      (
        out,
        mirror_round rounds i o eorder (omega arith) eo size ∙ run,
        record {
          size = omega (arith, p.size, length-set eorder i (n - 1 - o));
          kept = λ j h. p.kept j (omega arith) ∙ get_elem?-set_ne eorder (n - 1 - o) (omega arith);
          mirrored = λ j o' h g e'. elim (ℕ_discrete i j) [
            | yes same ↦
                let at : n - 1 - j ≡ n - 1 - i = omega arith in
                let again : get_elem? order (n - 1 - i) ≡ some o' = rw at at e' in
                let same_value : o' ≡ o = cc in
                rw (← same, same_value)
                  (p.kept i (omega arith) ∙ get_elem?-set_self eorder i (n - 1 - o) (omega arith))
            | no ne ↦ p.mirrored j o' (omega arith) g e'
          ];
        },
      )

  -- An entry of the reflection comes from an entry of the order.
  mirror_back :
      (before out : List ℕ)
      → IsMirror n order 0 before out
      → length out ≡ n
      → (j o' : ℕ) → get_elem? out j ≡ some o'
      → (o : ℕ) × (get_elem? order (n - 1 - j) ≡ some o) × (o' ≡ n - 1 - o) × (j < n) × (o < n)
  mirror_back before out p size j o' e =
      let h : j < n = omega (arith, lt_of_get_elem? out j e) in
      let (o, eo) = get_elem?-some order (n - 1 - j) (omega (arith, is_order.size)) in
      let value = p.mirrored j o (omega arith) h eo in
      (o, eo, cc, h, is_order.below (n - 1 - j) o eo)

  mirror_forth :
      (before out : List ℕ)
      → IsMirror n order 0 before out
      → (i o : ℕ) → get_elem? order i ≡ some o
      → get_elem? out (n - 1 - i) ≡ some (n - 1 - o)
  mirror_forth before out p i o e =
      let h = lt_of_get_elem? order i e in
      let twice : n - 1 - (n - 1 - i) ≡ i = omega (arith, is_order.size) in
      p.mirrored (n - 1 - i) o (omega arith) (omega (arith, is_order.size)) (rw twice e)

  mirror-IsOrder :
      (before out : List ℕ) → IsMirror n order 0 before out → length out ≡ n → IsOrder n out
  mirror-IsOrder before out p size = record {
    size = size;
    below =
        λ j o' e. let (o, eo, value, h, g) = mirror_back before out p size j o' e in omega arith;
    distinct = λ j k o' ej ek.
        let (o, eo, value, h, g) = mirror_back before out p size j o' ej in
        let (q, eq, value', h', g') = mirror_back before out p size k o' ek in
        let same : q ≡ o = omega arith in
        omega (arith, is_order.distinct (n - 1 - j) (n - 1 - k) o eo (rw same at eq));
    hit = λ o h.
        let (i, e) = is_order.hit (n - 1 - o) (omega arith) in
        let back : n - 1 - (n - 1 - o) ≡ o = omega arith in
        (n - 1 - i, rw back at (mirror_forth before out p i (n - 1 - o) e));
  }

  -- The reflected order exists, is itself an order of the slots, and sends place `n - 1 - i` to the
  -- slot `n - 1 - o` wherever the order sends place `i` to the slot `o`.
  pub mirror_order_lem :
      (eorder : List ℕ) × (mirror_order n order ≡ ok eorder)
      × IsOrder n eorder
      × ((i o : ℕ) → get_elem? order i ≡ some o → get_elem? eorder (n - 1 - i) ≡ some (n - 1 - o))
  unfolding mirror_order
  mirror_order_lem =
      let blank : List ℕ = replicate n 0 in
      let (out, run, p) = mirror_loop-IsMirror n 0 blank (omega arith) (length-replicate n 0) in
      let size : length out ≡ n = omega (arith, p.size, length-replicate {A = ℕ} n 0) in
      (out, run, mirror-IsOrder blank out p size, mirror_forth blank out p)
