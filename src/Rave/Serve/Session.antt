-- ===== src/Rave/Serve/Session.antt =====
-- Any number of calls on a handle that `rave_init` has loaded. Only `rave_randomize` and
-- `rave_relocate` change anything.
use librave.Base.{
  ℕ, ◌≡◌, refl, subst, sub64, Returns-weaken, List, Option, some, ok, All, All-both, Returns,
  bind-inv,
}
use librave.Errno.{Errno}
use librave.Random.{Draws}
use librave.Window.{Window, window_orig}
use librave.Elf.Libelf.{Libelf}
use librave.Transform.Dr.{Dr}
use librave.Transform.Chains.{Chains, ChainLaws}
use librave.Transform.Permute.{Tf}
use librave.Transform.Permute.Every.{Reorders-refl}
use librave.Transform.Encode.Rewritten.{IsEncodable}
use librave.Metadata.{MetadataOp}
use librave.Rave.Handle.{Machine, Handle}
use librave.Rave.Handle.Kept.{Kept}
use librave.Rave.Serve.{written, rave_randomize, rave_relocate}
use librave.Rave.Serve.Ready.{IsRoomy, Stands}
use librave.Rave.Serve.Live.{IsServed-IsLive}
use librave.Rave.Serve.Randomized.{Live, Randomized, rave_randomize-Live}

module _ {lib : Libelf} (dr : Dr) (chains : Chains) (mop : MetadataOp lib) (rand : Draws) where
  abbrev pub State : Type 0
  State = Handle lib dr chains mop × Machine

  -- A sequence of calls, each of which returns.
  pub data Session (s : State) : State → Type 0 where
    opened : Session s s
    randomized :
        {h h' : Handle lib dr chains mop} {m m' : Machine} {rc : Errno}
        → Session s (h, m)
        → rave_randomize lib dr chains mop rand (some h) m ≡ ok (rc, some h', m')
        → Session s (h', m')
    relocated :
        {h h' : Handle lib dr chains mop} {m : Machine} {rc : Errno}
        → Session s (h, m)
        → (address : ℕ) → rave_relocate lib dr chains mop (some h) address ≡ ok (rc, some h')
        → Session s (h', m)

module _ {lib : Libelf} (dr : Dr) (short : IsEncodable dr) (chains : Chains)
    (chain_laws : ChainLaws chains) (mop : MetadataOp lib) (rand : Draws) (w : Window)
    (roomy : IsRoomy w) where
  module _ (tfs₀ : List (Tf dr chains rand)) (h₀ : Handle lib dr chains mop) (m₀ : Machine) where
    abbrev L : State dr chains mop rand → Type 0
    L s = Live dr chains mop rand w tfs₀ h₀ m₀ s

    randomized-Live :
        (h h' : Handle lib dr chains mop) (m m' : Machine) (rc : Errno)
        → L (h, m)
        → rave_randomize lib dr chains mop rand (some h) m ≡ ok (rc, some h', m')
        → L (h', m')
    randomized-Live h h' m m' rc live e =
        let (h'', same, live', changes) =
          subst (Returns _) e
            (rave_randomize-Live dr short chains chain_laws mop rand w roomy tfs₀ h₀ h m₀ m live) in
        let here : h'' ≡ h' = cc in subst (λ k. L (k, m')) here live'

    relocated-Live :
        (h h' : Handle lib dr chains mop) (m : Machine) (rc : Errno) (address : ℕ)
        → L (h, m)
        → rave_relocate lib dr chains mop (some h) address ≡ ok (rc, some h')
        → L (h', m)
    unfolding rave_relocate
    relocated-Live h h' m rc address live e =
        let (code, has, done) = bind-inv (written h.segment) _ e in
        let left : Handle lib dr chains mop = record h {
          reloc_offset = some (sub64 (window_orig (some code)) address);
        } in
        let same : left ≡ h' = cc in
        let live' : L (left, m) = record {
          text = live.text;
          segment = live.segment;
          binary = live.binary;
          metadata = live.metadata;
          store = live.store;
          self = live.self;
          transform = live.transform;
          same = live.same;
          live = live.live;
          beyond = live.beyond;
        } in
        subst (λ k. L (k, m)) same live'

    pub Session-Live :
        (s s' : State dr chains mop rand) → L s → Session dr chains mop rand s s' → L s'
    Session-Live s s' live opened = live
    Session-Live s s' live (randomized {h} {h'} {m} {m'} {rc} before e) =
        randomized-Live h h' m m' rc (Session-Live s (h, m) live before) e
    Session-Live s s' live (relocated {h} {h'} {m} {rc} before address e) =
        relocated-Live h h' m rc address (Session-Live s (h, m) live before) e

  -- A handle that has been loaded, all of whose epilogues stand in their functions, can be asked.
  pub Kept-Live :
      (h₀ h : Handle lib dr chains mop) (m₀ m : Machine)
      → (kept : Kept lib dr chains mop w h₀ m₀ (h, m))
      → All (Stands dr chains) (chains.entries kept.self)
      → L (chains.entries kept.self) h m (h, m)
  Kept-Live h₀ h m₀ m kept stands = record {
    text = kept.text;
    segment = refl;
    binary = refl;
    metadata = refl;
    store = refl;
    self = kept.self;
    transform = kept.transform;
    same = Reorders-refl dr chains rand (some w) (chains.entries kept.self);
    live =
        All-both (IsServed-IsLive dr chains rand w roomy) (chains.entries kept.self) kept.served
          stands;
    beyond = λ q far. refl;
  }

  -- After any number of randomisations and relocations of a handle that `rave_init` has loaded, all
  -- of whose epilogues stand in their functions: the functions are the same with other orders, the
  -- windows, the binary and the metadata are as they were, no memory has been taken or given back,
  -- and no byte has changed beyond the text and the 16 bytes behind it; and one more randomisation
  -- returns without a fault, and leaves that so. An encoding has at most 17 bytes, and the text has
  -- at most 2 GB with 17 bytes to the end of the address space.
  -- The machine lets a read of the entry behind an array through.
  pub loaded-Live :
      (h₀ h : Handle lib dr chains mop) (m₀ m : Machine) (s : State dr chains mop rand)
      → (kept : Kept lib dr chains mop w h₀ m₀ (h, m))
      → All (Stands dr chains) (chains.entries kept.self)
      → Session dr chains mop rand (h, m) s
      → L (chains.entries kept.self) h m s
        × Returns
            (λ (rc, h', m').
              (h'' : Handle lib dr chains mop) × (h' ≡ some h'')
              × L (chains.entries kept.self) h m (h'', m'))
            (rave_randomize lib dr chains mop rand (some s.0) s.1)
  loaded-Live h₀ h m₀ m s kept stands session =
      let tfs = chains.entries kept.self in
      let live = Session-Live tfs h m (h, m) s (Kept-Live h₀ h m₀ m kept stands) session in
      let P : Errno × Option (Handle lib dr chains mop) × Machine → Type 0 = λ (rc, h', m').
        (h'' : Handle lib dr chains mop) × (h' ≡ some h'')
        × L tfs h m (h'', m')
        × Randomized dr chains mop rand w s.0 live.self s.1 rc h'' m' in
      (
        live,
        Returns-weaken P _ (rave_randomize lib dr chains mop rand (some s.0) s.1)
            (rave_randomize-Live dr short chains chain_laws mop rand w roomy tfs h s.0 m s.1 live)
            (λ (rc, h', m') (h'', same, live', changes). (h'', same, live')),
      )
