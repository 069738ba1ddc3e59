-- ===== src/Rave/Serve/Randomized.antt =====
-- `rave_randomize` of a handle that `rave_init` has loaded.
use librave.Base.{
  ℕ, ◌≡◌, refl, ◌∙◌, List, some, All, All-map, Returns, Returns-inv, Returns-step, Option, ap,
}
use librave.Errno.{Errno}
use librave.Memory.{at}
use librave.Random.{Draws}
use librave.Window.{Window}
use librave.Elf.Libelf.{Libelf}
use librave.Transform.Dr.{Dr}
use librave.Transform.Chains.{Chains, ChainLaws}
use librave.Transform.Add.{Self}
use librave.Transform.Encode.Rewritten.{IsEncodable}
use librave.Transform.Permute.{Tf, transform_permute_all}
use librave.Transform.Permute.Every.{
  Spared, Reorders, Reorders-trans, transform_permute_all-IsReady,
}
use librave.Metadata.{MetadataOp}
use librave.Rave.Handle.{Machine, Handle}
use librave.Rave.Serve.{held, kept, written, rave_randomize}
use librave.Rave.Serve.Ready.{IsRoomy}
use librave.Rave.Serve.Live.{Beyond, IsLive, Reorders-IsLive, IsLive-Spared}

module _ {lib : Libelf} (dr : Dr) (chains : Chains) (mop : MetadataOp lib) (rand : Draws)
    (w : Window) where
  abbrev Rave : Type 0
  Rave = Handle lib dr chains mop

  -- A handle and a machine that can be asked to randomise, against those before: the text window is
  -- `w`, and the functions of the transform are those before with other orders, all of which can be
  -- permuted; no other field of the handle has changed
  -- but the offset of its code, no memory is taken or given back, and no byte beyond the text has
  -- changed.
  pub record Live (tfs₀ : List (Tf dr chains rand)) (h₀ : Rave) (m₀ : Machine) (s : Rave × Machine)
      : Type 0 where
    pub text : s.0.text ≡ some w
    pub segment : s.0.segment ≡ h₀.segment
    pub binary : s.0.binary ≡ h₀.binary
    pub metadata : s.0.metadata ≡ h₀.metadata
    pub store : s.1.store ≡ m₀.store
    pub self : Self dr chains
    pub transform : s.0.transform ≡ at self
    pub same : Reorders dr chains rand (some w) tfs₀ (chains.entries self)
    pub live : All (IsLive dr chains rand w) (chains.entries self)
    pub beyond : (q : ℕ) → Beyond w q → s.1.world.bytes q ≡ m₀.world.bytes q

  -- What a randomisation changes: the orders of the functions, and the bytes of their sets.
  pub record Randomized (h : Rave) (self : Self dr chains) (m : Machine) (rc : Errno) (h' : Rave)
      (m' : Machine) : Type 0 where
    pub self' : Self dr chains
    pub handle : h' ≡ record h { transform = at self' }
    pub again : Reorders dr chains rand (some w) (chains.entries self) (chains.entries self')
    pub store : m'.store ≡ m.store
    pub spares :
        (q : ℕ)
        → All (Spared dr chains rand (some w) rc q) (chains.entries self)
        → m'.world.bytes q ≡ m.world.bytes q

module _ {lib : Libelf} (dr : Dr) (short : IsEncodable dr) (chains : Chains)
    (chain_laws : ChainLaws chains) (mop : MetadataOp lib) (rand : Draws) (w : Window)
    (roomy : IsRoomy w) where
  -- Randomising a handle that can be asked to returns without a fault, whatever is drawn and whether
  -- or not the code can be encoded. It leaves the same functions with other orders, and changes no
  -- byte outside the places of their sets, but for 17 bytes behind each if the code cannot be
  -- encoded; no byte changes beyond the text and the 16 bytes behind it. Nothing else of the handle
  -- changes, no memory is taken or given back, and the handle can be asked again. An encoding has at
  -- most 17 bytes, and the text has at most 2 GB with 17 bytes to the end of the address space.
  -- The machine lets a read of the entry behind an array through.
  pub rave_randomize-Live :
      (tfs₀ : List (Tf dr chains rand)) (h₀ h : Handle lib dr chains mop) (m₀ m : Machine)
      → (live : Live dr chains mop rand w tfs₀ h₀ m₀ (h, m))
      → Returns
          (λ (rc, h', m').
            (h'' : Handle lib dr chains mop) × (h' ≡ some h'')
            × Live dr chains mop rand w tfs₀ h₀ m₀ (h'', m')
            × Randomized dr chains mop rand w h live.self m rc h'' m')
          (rave_randomize lib dr chains mop rand (some h) m)
  unfolding rave_randomize
  rave_randomize-Live tfs₀ h₀ h m₀ m live =
      let tfs = chains.entries live.self in
      let ready = All-map (λ tf (l : IsLive dr chains rand w tf). l.ready) tfs live.live in
      let ((rc, h', world), e, (self', same, (again, all, spares))) =
        Returns-inv _ (transform_permute_all dr chains rand (some live.self) (some w) m.world) (
          transform_permute_all-IsReady dr short chains chain_laws rand live.self w m.world
            ready) in
      let left : Handle lib dr chains mop = record h { transform = kept lib dr chains mop h' } in
      let beyond = λ (q : ℕ) (far : Beyond w q).
        spares q
          (All-map (λ tf l. IsLive-Spared dr chains rand w roomy rc q tf l far) tfs live.live) in
      let Q : Errno × Option (Handle lib dr chains mop) × Machine → Type 0 = λ (rc, h', m').
        (h'' : Handle lib dr chains mop) × (h' ≡ some h'')
        × Live dr chains mop rand w tfs₀ h₀ m₀ (h'', m')
        × Randomized dr chains mop rand w h live.self m rc h'' m' in
      Returns-step Q _ _ (ap (held lib dr chains mop) live.transform) (
        Returns-step Q _ _ (ap written live.text) (
          Returns-step Q _ _ e (
            left,
            refl,
            record {
              text = live.text;
              segment = live.segment;
              binary = live.binary;
              metadata = live.metadata;
              store = live.store;
              self = self';
              transform = ap (kept lib dr chains mop) same;
              same =
                  Reorders-trans dr chains rand (some w) tfs₀ tfs (chains.entries self') live.same
                    again;
              live =
                  Reorders-IsLive dr chains rand w roomy tfs (chains.entries self') again live.live
                    all;
              beyond = λ q far. beyond q far ∙ live.beyond q far;
            },
            record {
              self' = self';
              handle = ap (λ p. record h { transform = kept lib dr chains mop p }) same;
              again = again;
              store = refl;
              spares = spares;
            },
          )))
