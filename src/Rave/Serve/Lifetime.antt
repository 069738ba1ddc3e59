-- ===== src/Rave/Serve/Lifetime.antt =====
-- A handle from `rave_init` through any number of calls: what a randomisation leaves to run.
use librave.Base.{ℕ, List, Option, some, All, All-map}
use librave.Errno.{Errno}
use librave.Random.{Draws}
use librave.Window.{Window}
use librave.Elf.Libelf.{Libelf}
use librave.Transform.Dr.{Dr}
use librave.Transform.Chains.{Chains}
use librave.Transform.Permute.{Tf}
use librave.Transform.Permute.Every.{Reorders, no_more, one_more}
use librave.Transform.Permute.Balanced.Whole.{Balanced}
use librave.Transform.Permute.Balanced.Every.{sets_of}
use librave.Rave.Handle.{Handle}
use librave.Rave.Handle.Kept.{Kept}
use librave.Rave.Serve.Session.{Session}
use librave.Rave.Serve.Balanced.{Apart, Unmixed}

module _ (dr : Dr) (chains : Chains) (rand : Draws) (w : Window) where
  -- What does not depend on the orders of functions holds with other orders.
  pub Reorders-All :
      (P : Tf dr chains rand → Type 0) (tfs tfs' : List (Tf dr chains rand))
      → ((tf : Tf dr chains rand) (o : Option (List ℕ)) → P tf → P (record tf { order = o }))
      → Reorders dr chains rand (some w) tfs tfs'
      → All P tfs
      → All P tfs'
  Reorders-All P tfs tfs' steady no_more all = tt
  Reorders-All P tfs tfs' steady (one_more {tfs = us} {tfs' = us'} tf order b r) (here, all) =
      (steady tf order here, Reorders-All P us us' steady r all)

  pub Reorders-Unmixed :
      (tfs tfs' : List (Tf dr chains rand))
      → Reorders dr chains rand (some w) tfs tfs'
      → Unmixed dr chains rand w tfs
      → Unmixed dr chains rand w tfs'
  Reorders-Unmixed tfs tfs' no_more unmixed = tt
  Reorders-Unmixed tfs tfs' (one_more {tfs = us} {tfs' = us'} tf order b r) (own, others, unmixed) =
      (
        own,
        All-map
            (λ s apart.
              Reorders-All (λ tf'. All (Apart s) (sets_of dr chains rand (some w) tf')) us us'
                (λ tf' o h. h) r apart)
            (sets_of dr chains rand (some w) tf) others,
        Reorders-Unmixed us us' r unmixed,
      )
