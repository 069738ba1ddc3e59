-- ===== src/Transform/Add/Loop.antt =====
-- The loop of the search, on the fuel that it is given.
use librave.Base.{
  ℕ, zero, suc, ◌-◌, ◌<◌, ◌^◌, ◌≡◌, refl, inl, inr, ◌⊎◌, Bool, some, arith, ltb, Returns,
  Returns-inv, Bool-cases, ltb→lt, subst,
}
use librave.Errno.{Errno}
use librave.Transform.Dr.{Dr, Bytes, Decodes}
use librave.Transform.Chains.{Chains, ChainLaws}
use librave.Transform.Sets.{InstrSet, test_instr_epilogue}
use librave.Transform.Sets.Next.{next_set-Next}
use librave.Transform.Mirror.Reverse.{IsCounted}
use librave.Transform.Add.{content, Search, Round, again, leave, search_step, search_loop}
use librave.Transform.Add.Rounds.{Sound, Ended, ended, broken, Sounds, after_scan-Sounds}

pub Round-cases :
    {I : Type 0} {Head : Type 0 → Type 0} (r : Round I Head)
    → ((s : Search I Head) × (r ≡ again s))
      ⊎ ((rc : Errno) × (s : Search I Head) × (r ≡ leave rc s))
Round-cases (again s) = inl (s, refl)
Round-cases (leave rc s) = inr (rc, s, refl)

module _ (dr : Dr) (laws : Decodes dr) (chains : Chains) (chain_laws : ChainLaws chains)
    (bytes : Bytes) (end : ℕ) (small : end < 2 ^ 64) (pro : InstrSet dr.Instr)
    (counted : IsCounted pro) (low : ℕ) (grants : ℕ → Bool) where
  step-Sounds :
      (s : Search dr.Instr chains.Head)
      → Sound dr chains pro low grants s
      → s.walk < end
      → Returns (Sounds dr chains pro low grants s.walk) (search_step dr chains bytes end pro s)
  unfolding search_step
  step-Sounds s sound h =
      let (r, e, n) =
        next_set-Next dr laws bytes end (some (test_instr_epilogue dr))
          (record { walk = s.walk; orig = s.orig; set = content s.set; store = s.store }) small h in
      rw (e) (after_scan-Sounds dr chains chain_laws pro low grants s r counted sound n)

  -- The search ends, with one round more than there are bytes to walk.
  pub search_loop-Ended :
      (fuel : ℕ) (s : Search dr.Instr chains.Head)
      → Sound dr chains pro low grants s
      → end - s.walk < fuel
      → Returns
          (λ (rc, s'). Ended dr chains pro low grants rc s')
          (search_loop dr chains fuel bytes end pro s)
  unfolding search_loop
  search_loop-Ended zero s sound h = absurd (omega arith)
  search_loop-Ended (suc fuel) s sound h = elim (Bool-cases (ltb s.walk end)) [
    | inr t ↦ rw (t, search_loop) (ended sound)
    | inl t ↦
        let below = ltb→lt s.walk end t in
        let (r, e, goes) =
          Returns-inv (Sounds dr chains pro low grants s.walk)
            (search_step dr chains bytes end pro s) (step-Sounds s sound below) in
        elim (Round-cases r) [
          | inl (s', same) ↦
              let (sound', moved) = subst (Sounds dr chains pro low grants s.walk) same goes in
              rw (t, search_loop, e, same) (search_loop-Ended fuel s' sound' (omega arith))
          | inr (rc, s', same) ↦
              let (ne, unwritten, kept) =
                subst (Sounds dr chains pro low grants s.walk) same goes in
              rw (t, search_loop, e, same) (broken ne unwritten kept)
        ]
  ]
