-- ===== src/Transform/Sets/Grants.antt =====
-- `next_set` only counts its requests: which of them are granted is not its affair.
use librave.Base.{
  ℕ, zero, suc, ◌-◌, ◌⊎◌, ◌≡◌, refl, sym, ◌∙◌, ap, Bool, true, false, Option, inl, inr, ltb, ◌==◌,
  ok, Bool-cases, Option-cases, bind-inv, subst,
}
use librave.Errno.{Errno, success}
use librave.Transform.Dr.{Dr, Bytes}
use librave.Transform.Sets.{
  settled, next_set_loop, Cursor, Step, again, done, Scan, unstarted, scanned, wanted, abandon,
  keep, pass, next_step, next_set, instr_set_init, instr_set_close,
}
use librave.Transform.Sets.Checked.{settled-inv}
use librave.Transform.Store.{Store, granted, refused, with_instr, destroy_instrs}
use librave.Transform.Sets.Rounds.{
  loop_end, loop_done, loop_again, step_invalid, step_keep, step_pass, moved,
}

abbrev step_store : {I : Type 0} → Step I → Store
step_store (again c) = c.store
step_store (done rc c) = c.store

module _ (dr : Dr) (bytes : Bytes) (test : Option (dr.Instr → Bool)) where
  abandon-grants : (b : Bool) (c : Cursor dr.Instr) → (abandon dr b c).store.grants ≡ c.store.grants
  unfolding abandon instr_set_close
  abandon-grants true c = refl
  abandon-grants false c = refl

  keep-grants :
      (instr : dr.Instr) (c : Cursor dr.Instr)
      → (step_store (keep dr instr c)).grants ≡ c.store.grants
  unfolding keep abandon instr_set_close
  keep-grants instr c = elim (Bool-cases (granted c.store)) [
    | inl g ↦ rw (g) refl
    | inr g ↦ rw (g) refl
  ]

  pass-grants : (c : Cursor dr.Instr) → (step_store (pass dr c)).grants ≡ c.store.grants
  unfolding pass
  pass-grants c = elim (Bool-cases (c.set.nr_instrs == 0)) [
    | inl g ↦ rw (g) refl
    | inr g ↦ rw (g) refl
  ]

  step-grants :
      (c : Cursor dr.Instr) → (step_store (next_step dr bytes test c)).grants ≡ c.store.grants
  step-grants c = elim (Option-cases (dr.decode bytes c.walk c.orig)) [
    | inl e ↦
        ap (λ s. (step_store s).grants) (step_invalid dr bytes 0 test c e)
        ∙ abandon-grants true (record c { walk = 0 })
    | inr ((next, instr), e) ↦ elim (Bool-cases (wanted dr test instr)) [
      | inl t ↦
          ap (λ s. (step_store s).grants) (step_keep dr bytes 0 test c next instr e t)
          ∙ keep-grants instr (moved dr c next instr)
      | inr t ↦
          ap (λ s. (step_store s).grants) (step_pass dr bytes 0 test c next instr e t)
          ∙ pass-grants (moved dr c next instr)
    ]
  ]

Step-cases :
    {I : Type 0} (s : Step I)
    → ((c : Cursor I) × (s ≡ again c)) ⊎ ((rc : Errno) × (c : Cursor I) × (s ≡ done rc c))
Step-cases (again c) = inl (c, refl)
Step-cases (done rc c) = inr (rc, c, refl)

module _ (dr : Dr) (bytes : Bytes) (max : ℕ) (test : Option (dr.Instr → Bool)) where
  loop-grants :
      (fuel : ℕ) (c : Cursor dr.Instr) (r : Scan dr.Instr)
      → next_set_loop dr fuel bytes max test c ≡ ok r
      → (rc : Errno) × (c' : Cursor dr.Instr) × (r ≡ scanned rc c')
        × (c'.store.grants ≡ c.store.grants)
  unfolding next_set_loop
  loop-grants zero c r e = absurd (cc)
  loop-grants (suc fuel) c r e = elim (Bool-cases (ltb c.walk max)) [
    | inr t ↦
        let last : ok (scanned success (record c { store = destroy_instrs 1 c.store })) ≡ ok r =
          sym (loop_end dr bytes max test fuel c t) ∙ e in
        (success, record c { store = destroy_instrs 1 c.store }, cc, refl)
    | inl t ↦
        let kept = step-grants dr bytes test c in
        elim (Step-cases (next_step dr bytes test c)) [
          | inl (c', s) ↦
              let (rc, c'', same, grants) =
                loop-grants fuel c' r (sym (loop_again dr bytes max test fuel c c' t s) ∙ e) in
              (rc, c'', same, grants ∙ (sym (ap (λ s. (step_store s).grants) s) ∙ kept))
          | inr (rc, c', s) ↦
              let last : ok (scanned rc c') ≡ ok r =
                sym (loop_done dr bytes max test fuel c c' rc t s) ∙ e in
              (rc, c', cc, sym (ap (λ s. (step_store s).grants) s) ∙ kept)
        ]
  ]

  -- `next_set` leaves what is granted as it is, and does not start only if its first request is
  -- refused.
  pub next_set-grants :
      (c : Cursor dr.Instr) (r : Scan dr.Instr)
      → next_set dr bytes max test c ≡ ok r
      → ((granted c.store ≡ false) × (r ≡ unstarted (refused c.store)))
        ⊎ ((rc : Errno) × (c' : Cursor dr.Instr) × (r ≡ scanned rc c')
            × (c'.store.grants ≡ c.store.grants))
  unfolding next_set instr_set_init
  next_set-grants c r e = elim (Bool-cases (granted c.store)) [
    | inr g ↦ let same = rw (g) at e in inl (g, cc)
    | inl g ↦
        let start = record c { set = instr_set_init c.set c.orig; store = with_instr c.store } in
        let (r', e', back) =
          bind-inv (next_set_loop dr (suc (max - c.walk)) bytes max test start) (settled dr c.store)
            (rw (g) at e) in
        inr (
          loop-grants (suc (max - c.walk)) start r (
            subst (λ x. next_set_loop dr (suc (max - c.walk)) bytes max test start ≡ ok x)
              (settled-inv dr c.store r' r back) e'))
  ]
