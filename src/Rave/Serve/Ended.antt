-- ===== src/Rave/Serve/Ended.antt =====
-- The end of a session: what `rave_close` gives back of a handle that has been randomised.
use librave.Base.{ℕ, ◌+◌, ◌≤◌, ◌≡◌, refl, ap, ◌∙◌, false, List, some, ok, All, length, arith, ◌==◌}
use librave.Errno.{Errno}
use librave.Memory.{Pointer}
use librave.Random.{Draws}
use librave.Window.{Window, null}
use librave.Elf.Libelf.{Libelf}
use librave.Elf.Files.{Files}
use librave.Elf.Binary.{Binary}
use librave.Transform.Dr.{Dr}
use librave.Transform.Chains.{Chains, ChainLaws}
use librave.Transform.Store.{Store, free_block}
use librave.Transform.Encode.Rewritten.{IsEncodable}
use librave.Base.{true}
use librave.Transform.Life.Closed.{Owned, all_parts, all_instrs}
use librave.Transform.Permute.{Tf}
use librave.Transform.Permute.Every.{Reorders, no_more, one_more, Reorders-length}
use librave.Metadata.{MetadataOp}
use librave.Rave.Handle.{Machine, Handle}
use librave.Rave.Handle.Kept.{Kept}
use librave.Rave.Life.{rave_close}
use librave.Rave.Life.Closing.{rave_close-Owned}
use librave.Rave.Serve.Ready.{IsRoomy, Stands}
use librave.Rave.Serve.Session.{State, Session, Kept-Live, Session-Live}

-- With other orders the functions hold as much.
Reorders-parts :
    (dr : Dr) (chains : Chains) (rand : Draws) (w : Window) (tfs tfs' : List (Tf dr chains rand))
    → Reorders dr chains rand (some w) tfs tfs'
    → (all_parts dr chains tfs' ≡ all_parts dr chains tfs)
      × (all_instrs dr chains tfs' ≡ all_instrs dr chains tfs)
unfolding all_parts all_instrs
Reorders-parts dr chains rand w tfs tfs' no_more = (refl, refl)
Reorders-parts dr chains rand w tfs tfs' (one_more {tfs = us} {tfs' = us'} tf order b r) =
    let (blocks, instrs) = Reorders-parts dr chains rand w us us' r in
    (omega (arith, blocks, b), omega (arith, instrs))

module _ {lib : Libelf} (files : Files) (dr : Dr) (lingers : dr.lingers ≡ true)
    (short : IsEncodable dr) (chains : Chains) (chain_laws : ChainLaws chains)
    (mop : MetadataOp lib) (calloc_at : Store → ℕ) (rand : Draws) (w : Window)
    (roomy : IsRoomy w) where
  -- Where the link of a destroyed instruction can still be read, closing a handle after any number of randomisations and relocations, where `rave_init` has loaded
  -- it, all epilogues stand in their functions, its pages are mapped, and its metadata can be closed
  -- and is destroyed by giving back its block, returns without a fault, and gives back what it gives
  -- back of a handle that has not been randomised: the pages, the metadata, the transform, and the
  -- orders and the sets of the functions with all their instruction objects. A block stays for each
  -- function, besides the blocks that were lost before. An encoding has at most 17 bytes, and the
  -- text has at most 2 GB with 17 bytes to the end of the address space.
  -- The machine lets a read of the entry behind an array through.
  pub rave_close-Session :
      (copy : Window) (binary : Binary lib) (h₀ h : Handle lib dr chains mop) (m₀ m : Machine)
      (s : State dr chains mop rand) (rc : Errno) (p : Pointer mop.Metadata)
      → (kept : Kept lib dr chains mop w h₀ m₀ (h, m))
      → All (Stands dr chains) (chains.entries kept.self)
      → Session dr chains mop rand (h, m) s
      → h₀.segment ≡ some copy
      → (copy.data_ptr == null) ≡ false
      → h₀.binary ≡ some binary
      → mop.close h.metadata ≡ ok (rc, p)
      → ((store : Store) → mop.destroy p store ≡ ok (free_block store))
      → 3 ≤ m₀.store.blocks
      → (k : ℕ) × (h' : Handle lib dr chains mop) × (m' : Machine) × (rave_close lib files dr chains
            mop calloc_at
            (some s.0)
            s.1
          ≡ ok (k, some h', m'))
        × (m'.store.blocks + 3 ≡ m₀.store.blocks + kept.lost + length (chains.entries kept.self))
        × (m'.store.instrs ≡ m₀.store.instrs)
  rave_close-Session copy binary h₀ h m₀ m s rc p kept stands session at_copy mapped at_binary
        closes destroys enough =
      let tfs = chains.entries kept.self in
      let live =
        Session-Live dr short chains chain_laws mop rand w roomy tfs h m (h, m) s
          (Kept-Live dr short chains chain_laws mop rand w roomy h₀ h m₀ m kept stands) session in
      let now = chains.entries live.self in
      let (blocks, instrs) = Reorders-parts dr chains rand w tfs now live.same in
      let size = Reorders-length dr chains rand (some w) tfs now live.same in
      let owned : Owned dr chains (m₀.store.blocks + kept.lost) m₀.store.instrs now s.1.store =
        record {
          blocks_held =
              omega (arith, kept.held.blocks_held, ap (λ t. t.blocks) live.store, blocks, size);
          instrs_held = omega (arith, kept.held.instrs_held, ap (λ t. t.instrs) live.store, instrs);
        } in
      let (k, h', m', e, held, objects) =
        rave_close-Owned files lingers calloc_at copy binary s.0 s.1 rc p live.self
          (m₀.store.blocks + kept.lost) m₀.store.instrs (live.segment ∙ kept.segment ∙ at_copy)
          mapped (live.binary ∙ kept.binary ∙ at_binary) live.transform
          (ap mop.close live.metadata ∙ closes) destroys owned (omega arith) in
      (k, h', m', e, omega (arith, held, size), objects)
