-- ===== src/Transform/Add/Rounds.antt =====
-- The search for epilogues ends, and keeps only sets that mirror the prologue.
use librave.Base.{
  ℕ, ◌<◌, ◌≤◌, ◌≡◌, ◌≢◌, refl, sym, ap, ◌∙◌, inl, inr, Bool, true, false, [], ◌∷◌, reverse, arith,
  All, All-append, Returns, Bool-cases,
}
use librave.Errno.{Errno, success, is_success, is_success_iff}
use librave.Transform.Dr.{Dr}
use librave.Transform.Chains.{Chains, ChainLaws}
use librave.Transform.Store.{granted}
use librave.Transform.Sets.{InstrSet, instr_set_close, Scan, unstarted, scanned}
use librave.Transform.Sets.Next.{Next, unasked, run, stopped}
use librave.Transform.Mirror.Reverse.{IsCounted, pushed, popped, is_epilogue_iff}
use librave.Transform.Add.{raw, content, Search, Round, again, leave, judge, after_scan}

-- A set that pops what the prologue pushes, in reverse.
pub record Mirrors (dr : Dr) (pro epi : InstrSet dr.Instr) : Type 0 where
  pub counted : IsCounted epi
  pub reversed : popped dr epi ≡ reverse (pushed dr pro)

-- Some request is refused.
abbrev pub Refuses : (ℕ → Bool) → Type 0
Refuses grants = (i : ℕ) × (grants i ≡ false)

module _ (dr : Dr) (chains : Chains) (pro : InstrSet dr.Instr) (low : ℕ) (grants : ℕ → Bool) where
  -- What the search keeps to: only sets that mirror the prologue, and a walk that does not go back.
  pub record Sound (s : Search dr.Instr chains.Head) : Type 0 where
    pub mirrored : All (Mirrors dr pro) (chains.entries s.epilogues)
    pub forward : low ≤ s.walk
    pub same : s.store.grants ≡ grants

  -- How it is left: by success while sound, or by a failure, which leaves a block that has not been
  -- written only if a request is refused.
  pub data Ended : Errno → Search dr.Instr chains.Head → Type 0 where
    ended : {s : Search dr.Instr chains.Head} → Sound s → Ended success s
    broken :
        {rc : Errno} {s : Search dr.Instr chains.Head}
        → rc ≢ success
        → (s.set ≡ raw → Refuses grants)
        → s.store.grants ≡ grants
        → Ended rc s

  -- A round that goes on is sound and has moved.
  abbrev pub Sounds : ℕ → Round dr.Instr chains.Head → Type 0
  Sounds walk (again s) = Sound s × (walk < s.walk)
  Sounds walk (leave rc s) =
      (rc ≢ success) × (s.set ≡ raw → Refuses grants) × (s.store.grants ≡ grants)

module _ (dr : Dr) (chains : Chains) (chain_laws : ChainLaws chains) (pro : InstrSet dr.Instr)
    (low : ℕ) (grants : ℕ → Bool) where
  judge-Sounds :
      (b : Bool) (set : InstrSet dr.Instr) (s : Search dr.Instr chains.Head) (walk : ℕ)
      → Sound dr chains pro low grants s
      → (b ≡ true → Mirrors dr pro set)
      → walk < s.walk
      → Sounds dr chains pro low grants walk (judge dr chains b set s)
  unfolding judge instr_set_close
  judge-Sounds false set s walk sound mirrors h =
      (record { mirrored = sound.mirrored; forward = sound.forward; same = sound.same }, h)
  judge-Sounds true set s walk sound mirrors h = elim (Bool-cases (granted s.store)) [
    | inr g ↦ rw (g) ((λ e. cc), (λ e. cc), sound.same)
    | inl g ↦ rw (g) (
      record {
        mirrored = rw (chain_laws.entries-add_tail set s.epilogues) (
            All-append (Mirrors dr pro) (chains.entries s.epilogues) (set ∷ []) sound.mirrored
              (mirrors refl, tt));
        forward = sound.forward;
        same = sound.same;
      },
      h,
    )
  ]

  pub after_scan-Sounds :
      (s : Search dr.Instr chains.Head) (r : Scan dr.Instr)
      → IsCounted pro
      → Sound dr chains pro low grants s
      → Next dr (record { walk = s.walk; orig = s.orig; set = content s.set; store = s.store }) r
      → Returns (Sounds dr chains pro low grants s.walk) (after_scan dr chains pro s r)
  unfolding after_scan
  after_scan-Sounds s (unstarted store) counted sound (unasked g) = (
    (λ e. cc),
    (λ e. (s.store.asked, ap (λ f. f s.store.asked) (sym sound.same) ∙ g)),
    sound.same,
  )
  after_scan-Sounds s (scanned rc c) counted sound (stopped ne same) =
      elim (Bool-cases (is_success rc)) [
        | inl t ↦ absurd (ne ((is_success_iff rc).0 t))
        | inr t ↦ rw (t) (ne, (λ e. cc), same ∙ sound.same)
      ]
  after_scan-Sounds s (scanned success c) counted sound (run c_counted moved sized passing same) =
      let (b, e, iff) = is_epilogue_iff dr pro c.set counted c_counted in
      rw ((is_success_iff success).1 refl, e)
        (judge-Sounds b c.set _ s.walk
          (record {
            mirrored = sound.mirrored;
            forward = omega (arith, sound.forward);
            same = same ∙ sound.same;
          })
          (λ t. record { counted = c_counted; reversed = iff.0 t }) moved)
