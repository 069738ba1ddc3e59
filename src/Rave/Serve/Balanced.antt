-- ===== src/Rave/Serve/Balanced.antt =====
-- What a successful `rave_randomize` leaves for the program to run.
use librave.Base.{
  ◌+◌, ◌-◌, ◌<◌, ◌≤◌, ◌≡◌, ◌⊎◌, inl, inr, List, [], ◌∷◌, Option, some, ap, All, All-both, arith,
  Returns, Returns-inv, Returns-step,
}
use librave.Errno.{Errno, success}
use librave.Random.{Draws}
use librave.Window.{Window}
use librave.Elf.Libelf.{Libelf}
use librave.Transform.Dr.{Dr, Decodes}
use librave.Transform.Chains.{Chains}
use librave.Transform.Sets.{InstrSet}
use librave.Transform.Sets.Next.{IsWithin}
use librave.Transform.Encode.Rewritten.{IsEncodable}
use librave.Transform.Encode.Decoded.{Inverts}
use librave.Transform.Permute.{Tf, transform_permute_all}
use librave.Transform.Permute.Balanced.Epilogues.{place, Parted, AllDisjoint}
use librave.Transform.Permute.Balanced.Whole.{Balanced}
use librave.Transform.Permute.Balanced.Every.{
  window_of, sets_of, IsPaired, AllSeparate, transform_permute_all-Balanced,
}
use librave.Metadata.{MetadataOp}
use librave.Rave.Handle.{Machine, Handle}
use librave.Rave.Serve.{held, written, rave_randomize}
use librave.Rave.Serve.Ready.{IsRoomy, shown_set}
use librave.Rave.Serve.Live.{IsLive}
use librave.Rave.Serve.Randomized.{Live}

-- Two sets have no address in common.
abbrev pub Apart : {I : Type 0} → InstrSet I → InstrSet I → Type 0
Apart s t = (s.end ≤ t.start) ⊎ (t.end ≤ s.start)

abbrev pub AllApart : {I : Type 0} → List (InstrSet I) → Type 0
AllApart [] = Unit
AllApart (s ∷ ss) = All (Apart s) ss × AllApart ss

module _ (dr : Dr) (chains : Chains) (rand : Draws) (w : Window) where
  -- No two sets of some functions have an address in common.
  abbrev pub Unmixed : List (Tf dr chains rand) → Type 0
  Unmixed [] = Unit
  Unmixed (tf ∷ tfs) =
      AllApart (sets_of dr chains rand (some w) tf)
      × All (λ s. All (λ tf'. All (Apart s) (sets_of dr chains rand (some w) tf')) tfs)
          (sets_of dr chains rand (some w) tf)
      × Unmixed tfs

  -- A set that the window of its function shows at its distance from the start of the text.
  record Shown (tf : Tf dr chains rand) (set : InstrSet dr.Instr) : Type 0 where
    starts : w.orig ≤ set.start
    ordered : set.start ≤ set.end
    at : place (window_of dr chains rand (some w) tf) set ≡ w.data_ptr + (set.start - w.orig)

  parted :
      (tf tf' : Tf dr chains rand) (s t : InstrSet dr.Instr)
      → Shown tf s
      → Shown tf' t
      → Apart s t
      → Parted
          (place (window_of dr chains rand (some w) tf) s)
          s
          (place (window_of dr chains rand (some w) tf') t)
          t
  parted tf tf' s t a b (inl h) =
      inl (omega (arith, a.at, b.at, a.starts, b.starts, a.ordered, b.ordered))
  parted tf tf' s t a b (inr h) =
      inr (omega (arith, a.at, b.at, a.starts, b.starts, a.ordered, b.ordered))

  disjoint :
      (tf : Tf dr chains rand) (sets : List (InstrSet dr.Instr))
      → All (Shown tf) sets
      → AllApart sets
      → AllDisjoint (window_of dr chains rand (some w) tf) sets
  disjoint tf [] shown apart = tt
  disjoint tf (s ∷ ss) (here, shown) (from, apart) =
      (All-both (λ t a b. parted tf tf s t here a b) ss shown from, disjoint tf ss shown apart)

  module _ (roomy : IsRoomy w) where
    IsWithin-Shown :
        (tf : Tf dr chains rand)
        → IsLive dr chains rand w tf
        → (set : InstrSet dr.Instr)
        → IsWithin tf.function.addr (tf.function.addr + tf.function.len) set
        → 0 < set.nr_instrs
        → Shown tf set
    IsWithin-Shown tf l set within some_slots = record {
      starts = omega (arith, within.starts, l.starts);
      ordered = omega (arith, within.sized);
      at =
          shown_set dr chains rand w roomy tf.function l.starts l.ends set.start within.starts
            (omega (arith, within.sized, within.ends, some_slots));
    }

    IsLive-Shown :
        (tf : Tf dr chains rand)
        → IsLive dr chains rand w tf
        → All (Shown tf) (sets_of dr chains rand (some w) tf)
    IsLive-Shown tf l =
        let one =
          λ (set : InstrSet dr.Instr)
              (within : IsWithin tf.function.addr (tf.function.addr + tf.function.len) set)
              (some_slots : 0 < set.nr_instrs).
            IsWithin-Shown tf l set within some_slots in
        (
          one tf.prologue l.within l.ready.some_slots,
          All-both
              (λ set placed within. one set within (omega (arith, placed.size, l.ready.some_slots)))
              (chains.entries tf.epilogues) l.ready.each l.stands,
        )

    pub separate :
        (tfs : List (Tf dr chains rand))
        → All (IsLive dr chains rand w) tfs
        → Unmixed tfs
        → AllSeparate dr chains rand (some w) tfs
    separate [] live unmixed = tt
    separate (tf ∷ tfs) (l, live) (own, others, unmixed) = (
      All-both
          (λ s here from.
            All-both
              (λ tf' l' apart.
                All-both (λ t there. parted tf tf' s t here there)
                  (sets_of dr chains rand (some w) tf') (IsLive-Shown tf' l') apart)
              tfs live from)
          (sets_of dr chains rand (some w) tf) (IsLive-Shown tf l) others,
      separate tfs live unmixed,
    )

    pub paired :
        (tfs : List (Tf dr chains rand))
        → All (IsLive dr chains rand w) tfs
        → Unmixed tfs
        → All (IsPaired dr chains rand (some w)) tfs
    paired [] live unmixed = tt
    paired (tf ∷ tfs) (l, live) (own, others, unmixed) = (
      record {
        ready = l.ready;
        mirrors = l.mirrors;
        disjoint = disjoint tf (sets_of dr chains rand (some w) tf) (IsLive-Shown tf l) own;
      },
      paired tfs live unmixed,
    )

module _ {lib : Libelf} (dr : Dr) (laws : Decodes dr) (inverts : Inverts dr)
    (short : IsEncodable dr) (chains : Chains) (mop : MetadataOp lib) (rand : Draws) (w : Window)
    (roomy : IsRoomy w) where
  -- Randomising a handle that can be asked to, in which no two sets of the functions have an address
  -- in common, returns without a fault. If it succeeds, each function is balanced in the copy of the
  -- text: its prologue decodes, at its old address, to a permutation of its own instructions, and
  -- each of its epilogues to a permutation of its own instructions, which pop the registers that the
  -- new prologue pushes, in reverse. The decoder inverts the encoder, an encoding has at most 17
  -- bytes, and the text has at most 2 GB with 17 bytes to the end of the address space.
  -- The machine lets a read of the entry behind an array through.
  pub rave_randomize-Balanced :
      (tfs₀ : List (Tf dr chains rand)) (h₀ h : Handle lib dr chains mop) (m₀ m : Machine)
      → (live : Live dr chains mop rand w tfs₀ h₀ m₀ (h, m))
      → Unmixed dr chains rand w (chains.entries live.self)
      → Returns
          (λ (rc, h', m').
            rc ≡ success
            → All
                (λ tf.
                  Balanced dr
                    (window_of dr chains rand (some w) tf)
                    m'.world.bytes
                    tf.prologue
                    (chains.entries tf.epilogues))
                (chains.entries live.self))
          (rave_randomize lib dr chains mop rand (some h) m)
  unfolding rave_randomize
  rave_randomize-Balanced tfs₀ h₀ h m₀ m live unmixed =
      let tfs = chains.entries live.self in
      let ((rc, self', world), e, balanced) =
        Returns-inv _ (transform_permute_all dr chains rand (some live.self) (some w) m.world) (
          transform_permute_all-Balanced dr laws inverts short chains rand live.self w m.world
            (paired dr chains rand w roomy tfs live.live unmixed)
            (separate dr chains rand w roomy tfs live.live unmixed)) in
      let Q : Errno × Option (Handle lib dr chains mop) × Machine → Type 0 = λ (rc, h', m').
        rc ≡ success
        → All
            (λ tf.
              Balanced dr (window_of dr chains rand (some w) tf) m'.world.bytes tf.prologue
                (chains.entries tf.epilogues))
            tfs in
      Returns-step Q _ _ (ap (held lib dr chains mop) live.transform)
        (Returns-step Q _ _ (ap written live.text) (Returns-step Q _ _ e balanced))
