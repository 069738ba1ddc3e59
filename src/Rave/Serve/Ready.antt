-- ===== src/Rave/Serve/Ready.antt =====
-- The functions that `rave_init` has loaded, and whose epilogues stand in them, are ready.
use mathlib.Core.List.Perm
use librave.Base.{
  ℕ, ◌+◌, ◌-◌, ◌^◌, ◌<◌, ◌≤◌, ◌≡◌, refl, ap, subst, some, none, All, All-both, arith, length,
  length-map, length-reverse,
}
use librave.Base.Orders.{count_up, length-count_up}
use librave.Random.{Draws}
use librave.Window.{Window, window_init, window_view}
use librave.Transform.Dr.{Dr}
use librave.Transform.Chains.{Chains}
use librave.Transform.Sets.{InstrSet}
use librave.Transform.Sets.Next.{IsWithin}
use librave.Transform.Mirror.Reverse.{IsCounted, pushed}
use librave.Transform.Data.{Function, Transformable}
use librave.Transform.Add.Rounds.{Mirrors}
use librave.Transform.Permute.{function_window}
use librave.Transform.Permute.Safe.{IsPlaced}
use librave.Transform.Permute.Every.{IsReady}
use librave.Rave.Handle.Kept.{IsServed}

-- A text of at most 2 GB over a buffer, each with room for an instruction before the end of the
-- address space.
pub record IsRoomy (w : Window) : Type 0 where
  pub real : 0 < w.data_ptr
  pub small : w.length ≤ 2 ^ 31
  pub room : w.orig + w.length + 16 < 2 ^ 64
  pub buffer_room : w.data_ptr + w.length + 16 < 2 ^ 64

pub shown :
    (w : Window) (a : ℕ)
    → w.data_ptr + w.length < 2 ^ 64
    → w.orig ≤ a
    → a < w.orig + w.length
    → w.orig + w.length < 2 ^ 64
    → (window_view (some w) a none).0 ≡ w.data_ptr + (a - w.orig)
unfolding window_view
shown w a buffer low high short = ground arith

-- Each epilogue stands in its function.
abbrev pub Stands : (dr : Dr) (chains : Chains) → Transformable dr.Instr chains.Head → Type 0
Stands dr chains tf =
    All (IsWithin tf.function.addr (tf.function.addr + tf.function.len))
      (chains.entries tf.epilogues)

module _ (dr : Dr) (chains : Chains) (rand : Draws) (w : Window) (roomy : IsRoomy w) (f : Function)
    (low : w.orig ≤ f.addr) (high : f.addr + f.len < w.orig + w.length) where
  -- Through the window of a function a set is shown at its distance from the start of the text.
  pub shown_set :
      (a : ℕ)
      → f.addr ≤ a
      → a < f.addr + f.len
      → (window_view (function_window dr chains rand (some w) f) a none).0
        ≡ w.data_ptr + (a - w.orig)
  unfolding window_init
  shown_set a starts ends =
      let at =
        shown w f.addr (omega (arith, roomy.buffer_room)) low (omega arith)
          (omega (arith, roomy.room)) in
      let fw : Window = record {
        orig = f.addr;
        data_ptr = w.data_ptr + (f.addr - w.orig);
        length = f.len;
      } in
      let inner =
        shown fw a (omega (arith, roomy.buffer_room)) starts ends (omega (arith, roomy.room)) in
      rw (at, inner) (omega arith)

  set-IsPlaced :
      (set : InstrSet dr.Instr)
      → IsWithin f.addr (f.addr + f.len) set
      → IsCounted set
      → 2 ≤ set.nr_instrs
      → IsPlaced dr (function_window dr chains rand (some w) f) set.nr_instrs set
  set-IsPlaced set within counted enough =
      let view =
        shown_set set.start within.starts (omega (arith, within.sized, within.ends, enough)) in
      record {
        counted = counted;
        size = refl;
        le = omega (arith, within.sized);
        small = omega (arith, within.ends, roomy.room);
        positive = omega (arith, view, roomy.real);
        room = omega (arith, view, within.starts, within.sized, within.ends, roomy.buffer_room);
      }

-- A set that mirrors another has as many instructions.
Mirrors-length :
    (dr : Dr) (pro epi : InstrSet dr.Instr)
    → IsCounted pro
    → Mirrors dr pro epi
    → epi.nr_instrs ≡ pro.nr_instrs
Mirrors-length dr pro epi counted mirrors = omega (
  arith,
  counted,
  mirrors.counted,
  ap length mirrors.reversed,
  length-map dr.dst_reg epi.instrs,
  length-reverse (pushed dr pro),
  length-map dr.src_reg pro.instrs,
)

module _ (dr : Dr) (chains : Chains) (rand : Draws) (w : Window) (roomy : IsRoomy w) where
  -- A function that has been loaded is ready, if its epilogues stand in it.
  pub IsServed-IsReady :
      (tf : Transformable dr.Instr chains.Head)
      → IsServed dr chains w tf
      → Stands dr chains tf
      → IsReady dr chains rand (some w) tf
  IsServed-IsReady tf served stands =
      let good = served.randomizable in
      let pro = tf.prologue in
      let within = good.within (omega (arith, served.ends, roomy.room)) in
      let place = set-IsPlaced dr chains rand w roomy tf.function served.starts served.ends in
      let n = pro.nr_instrs in
      let fw = function_window dr chains rand (some w) tf.function in
      record {
        old = count_up 0 n;
        has = good.order;
        permutes = record { whole = length-count_up 0 n; perm = Perm.rfl };
        some_slots = omega (arith, good.enough);
        few = omega (
          arith, within.starts, within.sized, within.ends, served.starts, served.ends, roomy.small,
        );
        placed = place pro within good.counted good.enough;
        each =
            All-both
              (λ epi mirrors inner.
                let same = Mirrors-length dr pro epi good.counted mirrors in
                subst (λ k. IsPlaced dr fw k epi) same
                  (place epi inner mirrors.counted (omega (arith, same, good.enough))))
              (chains.entries tf.epilogues) good.mirrored stands;
      }
