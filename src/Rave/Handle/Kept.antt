-- ===== src/Rave/Handle/Kept.antt =====
-- What the functions that the metadata hands over leave in the handle.
use librave.Base.{
  ℕ, ◌+◌, ◌^◌, ◌<◌, ◌≤◌, ◌≡◌, refl, sym, ◌∙◌, inl, inr, Bool, true, not, ◌||◌, some, none, [], ◌∷◌,
  arith, ltb, add64, All, All-append, subst, Bool-cases, Settles, Settles-bind, Settles-weaken,
  Settles-both, Returns-Settles, ltb→lt,
}
use librave.Errno.{Errno, success}
use librave.Memory.{at}
use librave.Window.{Window, window_contains, window_view}
use librave.Window.Range.{IsBacked, inside, window_contains_lem}
use librave.Elf.Libelf.{Libelf}
use librave.Transform.Dr.{Dr, Bytes, Decodes}
use librave.Transform.Store.{Store}
use librave.Transform.Chains.{Chains, ChainLaws}
use librave.Transform.Data.{Function, Transformable}
use librave.Transform.Add.{Self, transform_add_function}
use librave.Transform.Add.Rounds.{Refuses}
use librave.Transform.Add.Ledger.{adds-Ledger}
use librave.Transform.Add.Owned.{OwnedBut, Ledger-OwnedBut}
use librave.Transform.Life.Closed.{Owned}
use librave.Transform.Add.Added.{IsRandomizable, Added, added, left, Left}
use librave.Transform.Add.Whole.{transform_add_function-Left, transform_add_function-Added}
use librave.Metadata.{MetadataOp}
use librave.Metadata.Laws.{IsWords}
use librave.Rave.Handle.{Machine, Handle, offer, test_bounds, process_function}
use librave.Rave.Handle.Local.{local_short, local_wrapped, both}

-- A function of the list of the transform, which lies in the text before its last byte.
pub record IsServed (dr : Dr) (chains : Chains) (w : Window)
    (tf : Transformable dr.Instr chains.Head) : Type 0 where
  pub randomizable : IsRandomizable dr chains tf.function tf
  pub starts : w.orig ≤ tf.function.addr
  pub ends : tf.function.addr + tf.function.len < w.orig + w.length

module _ (lib : Libelf) (dr : Dr) (chains : Chains) (mop : MetadataOp lib) where
  -- A handle and a machine behind some functions, against those before them: the text window is
  -- `w`, all functions of the transform are such functions and lie in it, and nothing else changes but
  -- the memory that is held, by what the functions hold and by some blocks that are lost.
  pub record Kept (w : Window) (h₀ : Handle lib dr chains mop) (m₀ : Machine)
      (s : Handle lib dr chains mop × Machine) : Type 0 where
    pub text : s.0.text ≡ some w
    pub segment : s.0.segment ≡ h₀.segment
    pub binary : s.0.binary ≡ h₀.binary
    pub world : s.1.world ≡ m₀.world
    pub same : s.1.store.grants ≡ m₀.store.grants
    pub self : Self dr chains
    pub transform : s.0.transform ≡ at self
    pub served : All (IsServed dr chains w) (chains.entries self)
    pub lost : ℕ
    pub held :
        Owned dr chains (m₀.store.blocks + lost) m₀.store.instrs (chains.entries self) s.1.store

module _ (lib : Libelf) (dr : Dr) (laws : Decodes dr) (chains : Chains)
    (chain_laws : ChainLaws chains) (mop : MetadataOp lib) (w : Window)
    (h₀ : Handle lib dr chains mop) (m₀ : Machine) where
  abbrev pub After : Errno × (Handle lib dr chains mop × Machine) → Type 0
  After (rc, s) = (rc ≡ success) × Kept lib dr chains mop w h₀ m₀ s

  -- The list behind an offer, whether or not the function joins it.
  Added-All :
      (f : Function) (self self' : Self dr chains) (rc : Errno) (store : Store) (grants : ℕ → Bool)
      → w.orig ≤ f.addr
      → f.addr + f.len < w.orig + w.length
      → All (IsServed dr chains w) (chains.entries self)
      → Added dr chains f self grants (rc, self', store)
      → All (IsServed dr chains w) (chains.entries self') × (store.grants ≡ grants)
  Added-All f self self' rc store grants starts ends served (left ne same) = (served, same)
  Added-All f self self' rc store grants starts ends served (added tf good same) = (
    rw (chain_laws.entries-add_tail tf self) (
        All-append (IsServed dr chains w) (chains.entries self) (tf ∷ []) served (
          record {
            randomizable = subst (λ g. IsRandomizable dr chains g tf) (sym good.about) good;
            starts = rw (good.about) starts;
            ends = rw (good.about) ends;
          },
          tt,
        )),
    same,
  )

  -- The list and the memory behind an offer.
  abbrev Placed : Errno × Self dr chains × Store → Type 0
  Placed (rc, self, store) =
      All (IsServed dr chains w) (chains.entries self) × (store.grants ≡ m₀.store.grants)

  add-Placed :
      (f : Function) (self : Self dr chains) (bytes : Bytes) (store : Store)
      → IsBacked w
      → w.length ≤ 2 ^ 32
      → IsWords f
      → inside w f.addr ≡ true
      → inside w (add64 f.addr f.len) ≡ true
      → All (IsServed dr chains w) (chains.entries self)
      → store.grants ≡ m₀.store.grants
      → Settles
          (Refuses m₀.store.grants)
          Placed
          (transform_add_function dr chains bytes self f (window_view (some w) f.addr none).0 store)
  add-Placed f self bytes store b small words first last served same =
      let ptr = (window_view (some w) f.addr none).0 in
      elim (Bool-cases (ltb (f.addr + f.len) (2 ^ 64))) [
        | inl t ↦
            let (ends, near) = local_short w f b small (ltb→lt _ _ t) first last in
            subst
              (λ g.
                Settles (Refuses g) Placed
                  (transform_add_function dr chains bytes self f ptr store))
              same
              (Settles-weaken (Refuses store.grants) (Added dr chains f self store.grants) Placed _
                (transform_add_function-Added dr laws chains chain_laws f self bytes ptr store near)
                (λ (rc, self', store') a.
                  let (all, kept) =
                    Added-All f self self' rc store' store.grants (ground arith) ends served a in
                  (all, kept ∙ same)))
        | inr t ↦
            Returns-Settles (Refuses m₀.store.grants) (Left dr chains self store.grants) Placed _
              (transform_add_function-Left dr chains chain_laws f self bytes ptr store
                (local_wrapped w f b words (ground arith) first last))
              (λ (rc, self', store') (ne, unchanged, kept). (rw (unchanged) served, kept ∙ same))
      ]

  -- With what the functions hold.
  abbrev Served : Errno × Self dr chains × Store → Type 0
  Served (rc, self, store) =
      Placed (rc, self, store)
      × ((lost : ℕ) × Owned dr chains (m₀.store.blocks + lost) m₀.store.instrs (chains.entries self)
            store)

  add-Served :
      (f : Function) (h : Handle lib dr chains mop) (m : Machine)
      → IsBacked w
      → w.length ≤ 2 ^ 32
      → IsWords f
      → inside w f.addr ≡ true
      → inside w (add64 f.addr f.len) ≡ true
      → (kept : Kept lib dr chains mop w h₀ m₀ (h, m))
      → Settles (Refuses m₀.store.grants) Served (
          transform_add_function dr chains m.world.bytes kept.self f
            (window_view (some w) f.addr none).0
            m.store)
  add-Served f h m b small words first last kept =
      let ptr = (window_view (some w) f.addr none).0 in
      Settles-both (Refuses m₀.store.grants) Placed
        (OwnedBut dr chains chain_laws m.world.bytes f ptr m₀.store.blocks m₀.store.instrs) _
        (add-Placed f kept.self m.world.bytes m.store b small words first last kept.served
          kept.same)
        (λ r e.
          Ledger-OwnedBut dr chains chain_laws m.world.bytes f ptr kept.self m.store m₀.store.blocks
            kept.lost m₀.store.instrs r kept.held
            (adds-Ledger dr laws chains chain_laws f kept.self m.world.bytes ptr m.store r e))

  offer-Kept :
      (f : Function) (h : Handle lib dr chains mop) (m : Machine)
      → IsBacked w
      → w.length ≤ 2 ^ 32
      → IsWords f
      → inside w f.addr ≡ true
      → inside w (add64 f.addr f.len) ≡ true
      → Kept lib dr chains mop w h₀ m₀ (h, m)
      → Settles (Refuses m₀.store.grants) After (offer lib dr chains mop f w h m)
  offer-Kept f h m b small words first last kept = rw (kept.transform) (
      Settles-bind (Refuses m₀.store.grants) Served After _ _
        (add-Served f h m b small words first last kept)
        (λ (rc, self', store') ((served, same), (lost, held)). (
          refl,
          record {
            text = kept.text;
            segment = kept.segment;
            binary = kept.binary;
            world = kept.world;
            same = same;
            self = self';
            transform = refl;
            served = served;
            lost = lost;
            held = held;
          },
        )))

  pub process_function-Kept :
      IsBacked w
      → w.length ≤ 2 ^ 32
      → (f : Function) → IsWords f
      → (s : Handle lib dr chains mop × Machine) → Kept lib dr chains mop w h₀ m₀ s
      → Settles (Refuses m₀.store.grants) After (process_function lib dr chains mop f s)
  unfolding process_function
  process_function-Kept b small f words (h, m) kept =
      subst
        (λ text. Settles (Refuses m₀.store.grants) After (test_bounds lib dr chains mop text f h m))
        (sym kept.text)
        (elim (Bool-cases (
          not (window_contains (some w) f.addr)
          || not (window_contains (some w) (add64 f.addr f.len)))) [
            | inl t ↦ rw (t) (refl, kept)
            | inr t ↦
                let (first, last) = both _ _ t in
                rw (t) (
                  offer-Kept f h m b small words (sym (window_contains_lem w f.addr b) ∙ first)
                    (sym (window_contains_lem w (add64 f.addr f.len) b) ∙ last) kept)
          ])
