-- ===== src/Rave/Serve/Strays.antt =====
-- `rave_randomize` where an epilogue stands outside its function.
mod Tests
use librave.Base.{◌≡◌, ◌≢◌, Option, some, List, ◌∷◌, ◌++◌, Yields, Yields-bind}
use librave.Errno.{success}
use librave.Memory.{at}
use librave.Random.{Draws}
use librave.Window.{Window}
use librave.Elf.Libelf.{Libelf}
use librave.Transform.Dr.{Dr}
use librave.Transform.Chains.{Chains}
use librave.Transform.Permute.{World, Tf, permute_each, transform_permute_all}
use librave.Transform.Permute.Strays.{Fails3, Strays, each_stray}
use librave.Metadata.{MetadataOp}
use librave.Rave.Handle.{Machine, Handle}
use librave.Rave.Serve.{rave_randomize}

module _ {lib : Libelf} (dr : Dr) (chains : Chains) (mop : MetadataOp lib) (rand : Draws) where
  -- If the window of a function does not show one of its epilogues, because the address that is kept
  -- for it is not in the function, then randomising the handle never succeeds: it faults, since it
  -- writes through NULL, or it ends with the code of a failure before.
  pub rave_randomize-Strays :
      (h : Handle lib dr chains mop) (m : Machine) (w : Window)
      (self : chains.Head (Tf dr chains rand)) (before behind : List (Tf dr chains rand))
      (tf : Tf dr chains rand)
      → h.text ≡ some w
      → h.transform ≡ at self
      → chains.entries self ≡ before ++ tf ∷ behind
      → Strays dr chains rand (some w) tf
      → Yields (λ (rc, h', m'). rc ≢ success) (rave_randomize lib dr chains mop rand (some h) m)
  unfolding rave_randomize transform_permute_all
  rave_randomize-Strays h m w self before behind tf at_text at_self among stray =
      rw (at_self, at_text)
        (Yields-bind (Fails3 {A = Option (chains.Head (Tf dr chains rand))} {B = World})
          (λ (rc, h', m'). rc ≢ success)
          (transform_permute_all dr chains rand (some self) (some w) m.world) _
          (Yields-bind (Fails3 {A = List (Tf dr chains rand)} {B = World})
            (Fails3 {A = Option (chains.Head (Tf dr chains rand))} {B = World})
            (permute_each dr chains rand (chains.entries self) (some w) m.world) _
            (rw (among) (each_stray dr chains rand (some w) before behind tf m.world stray))
            (λ (rc, tfs, world) fails. fails))
          (λ (rc, self', world) fails. fails))
