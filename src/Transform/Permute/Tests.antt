-- ===== src/Transform/Permute/Tests.antt =====
-- The sample functions over the theorems of the permutation.
use mathlib.Core.List.Perm
use librave.Errno.{success}
use librave.Transform.Permute.Balanced.Whole.{Balanced}
use librave.Transform.Permute.Balanced.Every.{IsPaired, window_of, transform_permute_all-Balanced}
use librave.Base.{All, inl, ℕ, ◌≡◌, refl, Option, some, List, [], ◌∷◌, arith, Returns}
use librave.Base.Orders.{count_up}
use librave.Transform.Sample.{
  prologue, epilogue, function, sample, lists, lists-ChainLaws, sample-IsEncodable, sample-Decodes,
  sample-Inverts, one_exit,
}
use librave.Transform.Data.{Transformable}
use librave.Window.{Window, window_init, window_view}
use librave.Transform.Permute.{World, Tf, permute, transform_permute_all}
use librave.Transform.Permute.Safe.{IsPlaced, Permutes, Reordered, permute-Reordered}
use librave.Transform.Permute.Every.{IsReady, Kept, transform_permute_all-IsReady}

-- The window of the function.
abbrev shown : Option Window
shown = some (record { orig = 0x400000; data_ptr = 0x1000; length = 8 })

prologue-IsPlaced : IsPlaced sample shown 2 prologue
unfolding window_view
prologue-IsPlaced = record {
  counted = refl;
  size = refl;
  le = omega arith;
  small = omega arith;
  positive = omega arith;
  room = omega arith;
}

epilogue-IsPlaced : IsPlaced sample shown 2 epilogue
unfolding window_view
epilogue-IsPlaced = record {
  counted = refl;
  size = refl;
  le = omega arith;
  small = omega arith;
  positive = omega arith;
  room = omega arith;
}

counted-Permutes : Permutes 2 (0 ∷ 1 ∷ [])
unfolding count_up
counted-Permutes = record { whole = refl; perm = Perm.rfl }

abbrev found : Transformable ℕ (λ A. List A)
found = record {
  function = function;
  prologue = prologue;
  epilogues = epilogue ∷ [];
  order = some (0 ∷ 1 ∷ []);
}

abbrev world : World
world = record { bytes = one_exit; drawn = 5 }

permute-Reordered_example :
    Returns
      (Reordered sample sample-IsEncodable shown lists (λ k. k) found world)
      (permute sample lists (λ k. k) found shown world)
permute-Reordered_example =
    permute-Reordered sample sample-IsEncodable shown lists (λ k. k) found (0 ∷ 1 ∷ []) world refl
      counted-Permutes (omega arith) (omega arith) prologue-IsPlaced (epilogue-IsPlaced, tt)

found-IsReady : IsReady sample lists (λ k. k) shown found
unfolding window_view window_init
found-IsReady = record {
  old = 0 ∷ 1 ∷ [];
  has = refl;
  permutes = counted-Permutes;
  some_slots = omega arith;
  few = omega arith;
  placed = prologue-IsPlaced;
  each = (epilogue-IsPlaced, tt);
}

transform_permute_all-IsReady_example :
    Returns
      (λ (rc, self', world').
        (h : List (Tf sample lists (λ k. k))) × (self' ≡ some h)
        × Kept sample lists (λ k. k) shown (found ∷ []) world (rc, h, world'))
      (transform_permute_all sample lists (λ k. k) (some (found ∷ [])) shown world)
transform_permute_all-IsReady_example =
    transform_permute_all-IsReady sample sample-IsEncodable lists lists-ChainLaws (λ k. k)
      (found ∷ []) (record { orig = 0x400000; data_ptr = 0x1000; length = 8 }) world
      (found-IsReady, tt)

-- The two sets stand at 0x1001 and 0x1004.
found-IsPaired : IsPaired sample lists (λ k. k) shown found
unfolding window_view window_init
found-IsPaired = record {
  ready = found-IsReady;
  mirrors = (record { counted = refl; reversed = refl }, tt);
  disjoint = ((inl (omega arith), tt), (tt, tt));
}

transform_permute_all-Balanced_example :
    Returns
      (λ (rc, self', world').
        rc ≡ success
        → All
            (λ tf.
              Balanced sample
                (window_of sample lists (λ k. k) shown tf)
                world'.bytes
                tf.prologue
                tf.epilogues)
            (found ∷ []))
      (transform_permute_all sample lists (λ k. k) (some (found ∷ [])) shown world)
transform_permute_all-Balanced_example =
    transform_permute_all-Balanced sample sample-Decodes sample-Inverts sample-IsEncodable lists
      (λ k. k) (found ∷ []) (record { orig = 0x400000; data_ptr = 0x1000; length = 8 }) world
      (found-IsPaired, tt) ((tt, (tt, tt)), tt)
