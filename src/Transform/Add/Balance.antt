-- ===== src/Transform/Add/Balance.antt =====
-- What the search for epilogues holds: a block for each epilogue and one for the set at hand, and
-- the instruction objects of the epilogues.
use librave.Base.{
  ℕ, zero, suc, ◌+◌, ◌<◌, ◌^◌, ◌≡◌, ◌≢◌, refl, ap, ◌∙◌, inl, inr, ◌⊎◌, Bool, true, false, some, [],
  ◌∷◌, length, length-append, arith, subst, ltb, ok, bind-inv, ok-injective, Returns, Bool-cases,
}
use librave.Errno.{Errno, success, is_success, is_success_iff}
use librave.Transform.Dr.{Dr, Bytes, Decodes}
use librave.Transform.Chains.{Chains, ChainLaws}
use librave.Transform.Store.{granted}
use librave.Transform.Sets.{
  InstrSet, Scan, unstarted, scanned, next_set, instr_set_close, test_instr_epilogue,
}
use librave.Transform.Sets.Runs.{Test, Found, found, failed, not_started}
use librave.Transform.Sets.Loop.{next_set-Found}
use librave.Transform.Mirror.Reverse.{IsCounted, is_epilogue_iff}
use librave.Transform.Add.Loop.{Round-cases}
use librave.Transform.Held.{objects, objects-append}
use librave.Transform.Add.{
  Slot, absent, raw, holding, content, Search, Round, again, leave, judge, after_scan, search_step,
  search_loop,
}

-- The block of the set at hand.
abbrev pub slot_block : {I : Type 0} → Slot I → ℕ
slot_block absent = 0
slot_block raw = 1
slot_block (holding set) = 1

-- It holds no instruction.
abbrev pub IsClean : {I : Type 0} → Slot I → Type 0
IsClean (holding set) = set.instrs ≡ []
IsClean _ = Unit

module _ (dr : Dr) (chains : Chains) (b n : ℕ) where
  pub record Balanced (s : Search dr.Instr chains.Head) : Type 0 where
    pub blocks_held : s.store.blocks ≡ b + length (chains.entries s.epilogues) + slot_block s.set
    pub instrs_held : s.store.instrs ≡ n + objects (chains.entries s.epilogues)
    pub clean : IsClean s.set

  -- A round that goes on has a set at hand, and one that leaves does so by a failure.
  abbrev pub Balances : Round dr.Instr chains.Head → Type 0
  Balances (again s) = Balanced s × (slot_block s.set ≡ 1)
  Balances (leave rc s) = (rc ≢ success) × Balanced s

module _ (dr : Dr) (chains : Chains) (chain_laws : ChainLaws chains) (b n : ℕ) where
  -- A set that has been found joins the epilogues or is closed.
  judge-Balances :
      (mirrors : Bool) (set : InstrSet dr.Instr) (s : Search dr.Instr chains.Head)
      → s.store.blocks ≡ b + length (chains.entries s.epilogues) + 1
      → s.store.instrs ≡ n + objects (chains.entries s.epilogues) + length set.instrs
      → Balances dr chains b n (judge dr chains mirrors set s)
  unfolding judge instr_set_close objects
  judge-Balances false set s blocks instrs =
      (record { blocks_held = blocks; instrs_held = omega (arith, instrs); clean = refl }, refl)
  judge-Balances true set s blocks instrs =
      let joined = chain_laws.entries-add_tail set s.epilogues in
      let longer : length (chains.entries (chains.add_tail set s.epilogues))
          ≡ length (chains.entries s.epilogues) + 1 =
        ap length joined ∙ length-append (chains.entries s.epilogues) (set ∷ []) in
      let more : objects (chains.entries (chains.add_tail set s.epilogues))
          ≡ objects (chains.entries s.epilogues) + length set.instrs =
        ap objects joined ∙ objects-append (chains.entries s.epilogues) (set ∷ []) ∙ omega arith in
      elim (Bool-cases (granted s.store)) [
        | inr g ↦ rw (g) (
          (λ e. cc),
          record {
            blocks_held = omega (arith, blocks, longer);
            instrs_held = omega (arith, instrs, more);
            clean = tt;
          },
        )
        | inl g ↦ rw (g) (
          record {
            blocks_held = omega (arith, blocks, longer);
            instrs_held = omega (arith, instrs, more);
            clean = tt;
          },
          refl,
        )
      ]

  after_scan-Balances :
      (pro : InstrSet dr.Instr) (s : Search dr.Instr chains.Head) (r : Scan dr.Instr)
      (bytes : Bytes) (max : ℕ) (test : Test dr)
      → IsCounted pro
      → Balanced dr chains b n s
      → slot_block s.set ≡ 1
      → Found dr bytes max test s.walk s.orig s.store.instrs s.store.blocks r
      → Returns (Balances dr chains b n) (after_scan dr chains pro s r)
  unfolding after_scan
  after_scan-Balances pro s (unstarted store) bytes max test counted bal taken
        (not_started instrs blocks) =
      (
        (λ e. cc),
        record {
          blocks_held = blocks ∙ bal.blocks_held;
          instrs_held = instrs ∙ bal.instrs_held;
          clean = bal.clean;
        },
      )
  after_scan-Balances pro s (scanned rc c) bytes max test counted bal taken
        (failed ne none_held instrs blocks) =
      elim (Bool-cases (is_success rc)) [
        | inl t ↦ absurd (ne ((is_success_iff rc).0 t))
        | inr t ↦ rw (t) (
          ne,
          record {
            blocks_held = omega (arith, blocks, bal.blocks_held, taken);
            instrs_held = instrs ∙ bal.instrs_held;
            clean = none_held;
          },
        )
      ]
  after_scan-Balances pro s (scanned success c) bytes max test counted bal taken
        (found w₂ o₂ r stops instrs blocks) =
      let (mirrors, e, iff) = is_epilogue_iff dr pro c.set counted r.counted in
      rw ((is_success_iff success).1 refl, e)
        (judge-Balances mirrors c.set _ (omega (arith, blocks, bal.blocks_held, taken))
          (omega (arith, instrs, bal.instrs_held)))

module _ (dr : Dr) (laws : Decodes dr) (chains : Chains) (chain_laws : ChainLaws chains)
    (bytes : Bytes) (end : ℕ) (small : end < 2 ^ 64) (pro : InstrSet dr.Instr)
    (counted : IsCounted pro) (b n : ℕ) where
  step-Balances :
      (s : Search dr.Instr chains.Head) (r : Round dr.Instr chains.Head)
      → Balanced dr chains b n s
      → slot_block s.set ≡ 1
      → search_step dr chains bytes end pro s ≡ ok r
      → Balances dr chains b n r
  unfolding search_step
  step-Balances s r bal taken e =
      let (scan, e', after) =
        bind-inv
          (next_set dr bytes end (some (test_instr_epilogue dr))
            (record { walk = s.walk; orig = s.orig; set = content s.set; store = s.store }))
          (after_scan dr chains pro s) e in
      let hit =
        subst
          (Returns (
            Found dr bytes end (some (test_instr_epilogue dr)) s.walk s.orig s.store.instrs
              s.store.blocks))
          e'
          (next_set-Found dr laws bytes end (some (test_instr_epilogue dr))
            (record { walk = s.walk; orig = s.orig; set = content s.set; store = s.store })
            small) in
      subst (Returns (Balances dr chains b n)) after (
        after_scan-Balances dr chains chain_laws b n pro s scan bytes end
          (some (test_instr_epilogue dr)) counted bal taken hit)

  -- However the search is left.
  pub search_loop-Balanced :
      (fuel : ℕ) (s : Search dr.Instr chains.Head) (rc : Errno) (s' : Search dr.Instr chains.Head)
      → Balanced dr chains b n s
      → slot_block s.set ≡ 1
      → search_loop dr chains fuel bytes end pro s ≡ ok (rc, s')
      → Balanced dr chains b n s' × ((rc ≢ success) ⊎ (slot_block s'.set ≡ 1))
  unfolding search_loop
  search_loop-Balanced zero s rc s' bal taken e = absurd (cc)
  search_loop-Balanced (suc fuel) s rc s' bal taken e = elim (Bool-cases (ltb s.walk end)) [
    | inr t ↦
        let last : (success, s) ≡ (rc, s') = ok-injective (rw (t, search_loop) at e) in
        let same : s ≡ s' = ap (λ r. r.1) last in
        (
          subst (Balanced dr chains b n) same bal,
          inr (subst (λ s. slot_block s.set ≡ 1) same taken),
        )
    | inl t ↦
        let stepped = rw (t, search_loop) at e in
        let (r, e', after) = bind-inv (search_step dr chains bytes end pro s) _ stepped in
        let balances = step-Balances s r bal taken e' in
        elim (Round-cases r) [
          | inl (s'', same) ↦
              let (bal', taken') = subst (Balances dr chains b n) same balances in
              search_loop-Balanced fuel s'' rc s' bal' taken' (rw (same) at after)
          | inr (rc', s'', same) ↦
              let (ne, bal') = subst (Balances dr chains b n) same balances in
              let last : (rc', s'') ≡ (rc, s') = ok-injective (rw (same) at after) in
              let same_code : rc' ≡ rc = ap (λ r. r.0) last in
              let same_search : s'' ≡ s' = ap (λ r. r.1) last in
              (
                subst (Balanced dr chains b n) same_search bal',
                inl (subst (λ c. c ≢ success) same_code ne),
              )
        ]
  ]
