-- ===== src/Rave/Serve/Certain.antt =====
-- Randomisations that succeed: those of functions all of whose sets can be encoded in any order.
use librave.Base.{◌≡◌, List, Option, some, ap, Returns, Returns-inv, Returns-step}
use librave.Errno.{Errno, success}
use librave.Random.{Draws}
use librave.Window.{Window}
use librave.Elf.Libelf.{Libelf}
use librave.Transform.Dr.{Dr}
use librave.Transform.Chains.{Chains}
use librave.Transform.Encode.Rewritten.{IsEncodable}
use librave.Transform.Permute.{Tf, transform_permute_all}
use librave.Transform.Permute.Balanced.Whole.{Balanced}
use librave.Transform.Permute.Balanced.Every.{AllRigid, transform_permute_all-success}
use librave.Metadata.{MetadataOp}
use librave.Rave.Handle.{Machine, Handle}
use librave.Rave.Handle.Kept.{Kept}
use librave.Rave.Serve.{held, written, rave_randomize}
use librave.Rave.Serve.Ready.{IsRoomy}
use librave.Rave.Serve.Randomized.{Live}
use librave.Rave.Serve.Session.{Session}
use librave.Rave.Serve.Balanced.{Unmixed, paired, separate}

module _ {lib : Libelf} (dr : Dr) (short : IsEncodable dr) (chains : Chains) (mop : MetadataOp lib)
    (rand : Draws) (w : Window) (roomy : IsRoomy w) where
  pub rave_randomize-success :
      (tfs₀ : List (Tf dr chains rand)) (h₀ h : Handle lib dr chains mop) (m₀ m : Machine)
      → (live : Live dr chains mop rand w tfs₀ h₀ m₀ (h, m))
      → Unmixed dr chains rand w (chains.entries live.self)
      → AllRigid dr chains rand (some w) (chains.entries live.self)
      → Returns (λ (rc, h', m'). rc ≡ success) (rave_randomize lib dr chains mop rand (some h) m)
  unfolding rave_randomize
  rave_randomize-success tfs₀ h₀ h m₀ m live unmixed rigid =
      let tfs = chains.entries live.self in
      let ((rc, self', world), e, certain) =
        Returns-inv _ (transform_permute_all dr chains rand (some live.self) (some w) m.world) (
          transform_permute_all-success dr short chains rand live.self w m.world
            (paired dr chains rand w roomy tfs live.live unmixed)
            (separate dr chains rand w roomy tfs live.live unmixed) rigid) in
      let Q : Errno × Option (Handle lib dr chains mop) × Machine → Type 0 =
        λ (rc, h', m'). rc ≡ success in
      Returns-step Q _ _ (ap (held lib dr chains mop) live.transform)
        (Returns-step Q _ _ (ap written live.text) (Returns-step Q _ _ e certain))
