-- ===== src/Rave/Life/Closing.antt =====
-- What `rave_close` gives back of a handle that `rave_init` has loaded.
use librave.Base.{ℕ, ◌+◌, ◌-◌, ◌≤◌, ◌≡◌, refl, ◌∙◌, false, some, length, arith, ok, ◌==◌, bit_or}
use librave.Errno.{Errno, success, code}
use librave.Memory.{Pointer, at, release}
use librave.Window.{Window, null, window_get}
use librave.Elf.Libelf.{Libelf}
use librave.Elf.Files.{Files}
use librave.Elf.Binary.{Binary, binary_close}
use librave.Transform.Dr.{Dr}
use librave.Transform.Chains.{Chains}
use librave.Transform.Store.{Store, free_block}
use librave.Base.{true}
use librave.Transform.Sets.Checked.{checked-lingers}
use librave.Transform.Life.{Transform, close_each, transform_close, transform_destroy}
use librave.Transform.Life.Closed.{Owned, close_each-Holding}
use librave.Metadata.{MetadataOp}
use librave.Rave.Handle.{Machine, Handle}
use librave.Rave.Handle.Kept.{Kept}
use librave.Rave.Life.{close_parts, rave_close}

module _ {lib : Libelf} (files : Files) {dr : Dr} (lingers : dr.lingers ≡ true) {chains : Chains}
    {mop : MetadataOp lib} (calloc_at : Store → ℕ) where
  -- Closing a handle with its pages, its binary, and a transform whose functions hold what is theirs
  -- besides `b` blocks and `n` instruction objects.
  pub rave_close-Owned :
      (copy : Window) (binary : Binary lib) (h : Handle lib dr chains mop) (m : Machine)
      (rc : Errno) (p : Pointer mop.Metadata) (self : Transform dr chains) (b n : ℕ)
      → h.segment ≡ some copy
      → (copy.data_ptr == null) ≡ false
      → h.binary ≡ some binary
      → h.transform ≡ at self
      → mop.close h.metadata ≡ ok (rc, p)
      → ((store : Store) → mop.destroy p store ≡ ok (free_block store))
      → Owned dr chains b n (chains.entries self) m.store
      → 3 ≤ b
      → (k : ℕ) × (h' : Handle lib dr chains mop) × (m' : Machine) × (rave_close lib files dr chains
            mop calloc_at
            (some h)
            m
          ≡ ok (k, some h', m'))
        × (m'.store.blocks + 3 ≡ b + length (chains.entries self))
        × (m'.store.instrs ≡ n)
  unfolding rave_close close_parts window_get transform_close transform_destroy release code
  rave_close-Owned copy binary h m rc p self b n segment mapped bin transform closes destroys owned
        enough =
      let functions = chains.entries self in
      let given = free_block (free_block m.store) in
      let left = close_each-Holding dr chains functions given (b - 2 + length functions) n (record {
        blocks_held = omega (arith, owned.blocks_held, enough);
        instrs_held = owned.instrs_held;
      }) in
      let h' : Handle lib dr chains mop = record h {
        metadata = p;
        binary = (binary_close lib files (some binary)).1;
        transform = at chains.init;
      } in
      (
        bit_or (bit_or (code rc) (code (binary_close lib files (some binary)).0)) 0,
        h',
        record m { store = free_block (close_each dr chains functions given) },
        rw
            (
              segment,
              mapped,
              closes,
              destroys (free_block m.store),
              bin,
              transform,
              checked-lingers {A = Errno × Pointer (Transform dr chains) × Store} dr given
                  (close_each dr chains functions given)
                  (success, at chains.init, close_each dr chains functions given) lingers,
            )
            refl,
        omega (arith, left.blocks_held, enough),
        left.instrs_held,
      )

  -- Where the link of a destroyed instruction can still be read, closing a handle whose functions have been loaded, with its pages mapped and metadata that can be
  -- closed and that is destroyed by giving back its block, returns without a fault. It gives back
  -- the pages, the metadata, the transform, and the orders and the sets of the functions with all
  -- their instruction objects. A block stays for each function, besides the blocks that were lost
  -- before.
  pub rave_close-Kept :
      (w copy : Window) (binary : Binary lib) (h₀ h : Handle lib dr chains mop) (m₀ m : Machine)
      (rc : Errno) (p : Pointer mop.Metadata)
      → (kept : Kept lib dr chains mop w h₀ m₀ (h, m)) → h₀.segment ≡ some copy
      → (copy.data_ptr == null) ≡ false
      → h₀.binary ≡ some binary
      → mop.close h.metadata ≡ ok (rc, p)
      → ((store : Store) → mop.destroy p store ≡ ok (free_block store))
      → 3 ≤ m₀.store.blocks
      → (k : ℕ) × (h' : Handle lib dr chains mop) × (m' : Machine) × (rave_close lib files dr chains
            mop calloc_at
            (some h)
            m
          ≡ ok (k, some h', m'))
        × (m'.store.blocks + 3 ≡ m₀.store.blocks + kept.lost + length (chains.entries kept.self))
        × (m'.store.instrs ≡ m₀.store.instrs)
  rave_close-Kept w copy binary h₀ h m₀ m rc p kept at_copy mapped at_binary closes destroys
        enough =
      rave_close-Owned copy binary h m rc p kept.self (m₀.store.blocks + kept.lost) m₀.store.instrs
        (kept.segment ∙ at_copy) mapped (kept.binary ∙ at_binary) kept.transform closes destroys
        kept.held (omega arith)
