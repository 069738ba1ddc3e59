-- ===== src/Transform/Add/Owned.antt =====
-- What the functions of a list hold behind an offer.
use librave.Base.{ℕ, ◌+◌, ap, ◌∙◌, inl, inr, [], ◌∷◌, length, length-append, arith}
use librave.Errno.{Errno}
use librave.Transform.Dr.{Dr, Bytes}
use librave.Transform.Chains.{Chains, ChainLaws}
use librave.Transform.Store.{Store}
use librave.Transform.Data.{Function}
use librave.Transform.Add.{Self}
use librave.Transform.Add.Accounts.{owned, settled}
use librave.Transform.Add.Ledger.{Ledger, leaked}
use librave.Transform.Life.Closed.{
  Owned, all_parts, all_instrs, all_parts-append, all_instrs-append,
}

module _ (dr : Dr) (chains : Chains) (chain_laws : ChainLaws chains) (bytes : Bytes)
    (function : Function) (ptr : ℕ) where
  -- The blocks of functions whose prologue could not be read are lost.
  abbrev pub OwnedBut : ℕ → ℕ → Errno × Self dr chains × Store → Type 0
  OwnedBut b n (rc, self, store) =
      (lost : ℕ) × Owned dr chains (b + lost) n (chains.entries self) store

  pub Ledger-OwnedBut :
      (self : Self dr chains) (store : Store) (b lost n : ℕ) (r : Errno × Self dr chains × Store)
      → Owned dr chains (b + lost) n (chains.entries self) store
      → Ledger dr chains bytes function ptr self store r
      → OwnedBut b n r
  unfolding all_parts all_instrs
  Ledger-OwnedBut self store b lost n r h (inl (settled ne kept)) = (
    lost,
    record {
      blocks_held = kept.blocks_held ∙ h.blocks_held;
      instrs_held = kept.instrs_held ∙ h.instrs_held;
    },
  )
  Ledger-OwnedBut self store b lost n r h (inr (leaked scan e fails ne kept)) = (
    lost + 1,
    record {
      blocks_held = omega (arith, kept.blocks_held, h.blocks_held);
      instrs_held = kept.instrs_held ∙ h.instrs_held;
    },
  )
  Ledger-OwnedBut self store b lost n r h (inl (owned tf kept)) =
      let joined = chain_laws.entries-add_tail tf self in
      let longer = ap length joined ∙ length-append (chains.entries self) (tf ∷ []) in
      let parts =
        ap (all_parts dr chains) joined
        ∙ all_parts-append dr chains (chains.entries self) (tf ∷ []) in
      let instrs =
        ap (all_instrs dr chains) joined
        ∙ all_instrs-append dr chains (chains.entries self) (tf ∷ []) in
      (
        lost,
        record {
          blocks_held = omega (arith, kept.blocks_held, h.blocks_held, longer, parts);
          instrs_held = omega (arith, kept.instrs_held, h.instrs_held, instrs);
        },
      )
