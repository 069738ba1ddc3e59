-- ===== src/Rave/Serve/Live.antt =====
-- The functions that can be permuted as often as one likes, and the bytes that this leaves alone.
use librave.Base.{ℕ, ◌+◌, ◌<◌, ◌≤◌, ◌⊎◌, inl, inr, List, some, All, All-both, Bool-cases, arith}
use librave.Errno.{Errno, is_success}
use librave.Random.{Draws}
use librave.Window.{Window}
use librave.Transform.Dr.{Dr}
use librave.Transform.Chains.{Chains}
use librave.Transform.Sets.{InstrSet}
use librave.Transform.Sets.Next.{IsWithin}
use librave.Transform.Add.Rounds.{Mirrors}
use librave.Transform.Encode.Outside.{slack}
use librave.Transform.Permute.{Tf, function_window}
use librave.Transform.Permute.Safe.{Outside}
use librave.Transform.Permute.Every.{IsReady, Spared, Reorders, no_more, one_more}
use librave.Rave.Handle.Kept.{IsServed}
use librave.Rave.Serve.Ready.{IsRoomy, Stands, shown_set, IsServed-IsReady}

-- A byte outside the copy of the text, and not among the 16 behind it.
abbrev pub Beyond : Window → ℕ → Type 0
Beyond w q = (q < w.data_ptr) ⊎ (w.data_ptr + w.length + 16 ≤ q)

-- A function that can be permuted as often as one likes: it is ready, and it and its sets lie in the
-- text before the last byte, and its epilogues mirror its prologue.
pub record IsLive (dr : Dr) (chains : Chains) (rand : Draws) (w : Window) (tf : Tf dr chains rand)
    : Type 0 where
  pub ready : IsReady dr chains rand (some w) tf
  pub starts : w.orig ≤ tf.function.addr
  pub ends : tf.function.addr + tf.function.len < w.orig + w.length
  pub within : IsWithin tf.function.addr (tf.function.addr + tf.function.len) tf.prologue
  pub stands : Stands dr chains tf
  pub mirrors : All (Mirrors dr tf.prologue) (chains.entries tf.epilogues)

module _ (dr : Dr) (chains : Chains) (rand : Draws) (w : Window) (roomy : IsRoomy w) where
  pub IsServed-IsLive :
      (tf : Tf dr chains rand)
      → IsServed dr chains w tf
      → Stands dr chains tf
      → IsLive dr chains rand w tf
  IsServed-IsLive tf served stands = record {
    ready = IsServed-IsReady dr chains rand w roomy tf served stands;
    starts = served.starts;
    ends = served.ends;
    within = served.randomizable.within (omega (arith, served.ends, roomy.room));
    stands = stands;
    mirrors = served.randomizable.mirrored;
  }

  -- With other orders the functions stay where they are.
  pub Reorders-IsLive :
      (tfs tfs' : List (Tf dr chains rand))
      → Reorders dr chains rand (some w) tfs tfs'
      → All (IsLive dr chains rand w) tfs
      → All (IsReady dr chains rand (some w)) tfs'
      → All (IsLive dr chains rand w) tfs'
  Reorders-IsLive tfs tfs' no_more live ready = tt
  Reorders-IsLive tfs tfs' (one_more {tfs = rest} {tfs' = rest'} tf order b r) (here, live)
        (good, ready) =
      (
        record {
          ready = good;
          starts = here.starts;
          ends = here.ends;
          within = here.within;
          stands = here.stands;
          mirrors = here.mirrors;
        },
        Reorders-IsLive rest rest' r live ready,
      )

  slack_few : (rc : Errno) → slack rc ≤ 17
  slack_few rc = elim (Bool-cases (is_success rc)) [
    | inl t ↦ rw (t) (omega arith)
    | inr t ↦ rw (t) (omega arith)
  ]

  set-Outside :
      (rc : Errno) (q : ℕ) (tf : Tf dr chains rand) (set : InstrSet dr.Instr)
      → IsLive dr chains rand w tf
      → IsWithin tf.function.addr (tf.function.addr + tf.function.len) set
      → Beyond w q
      → 0 < set.nr_instrs
      → Outside (function_window dr chains rand (some w) tf.function) rc q set
  set-Outside rc q tf set live within beyond some_slots =
      let view =
        shown_set dr chains rand w roomy tf.function live.starts live.ends set.start within.starts
          (omega (arith, within.sized, within.ends, some_slots)) in
      let few = slack_few rc in
      elim beyond [
        | inl h ↦ inl (omega (arith, view, h))
        | inr h ↦ inr (
            omega (
              arith, view, h, few, within.starts, within.sized, within.ends, live.starts, live.ends,
            ))
      ]

  pub IsLive-Spared :
      (rc : Errno) (q : ℕ) (tf : Tf dr chains rand)
      → IsLive dr chains rand w tf
      → Beyond w q
      → Spared dr chains rand (some w) rc q tf
  IsLive-Spared rc q tf live beyond = record {
    prologue = set-Outside rc q tf tf.prologue live live.within beyond live.ready.some_slots;
    epilogues =
        All-both
          (λ set placed inner.
            set-Outside rc q tf set live inner beyond
              (omega (arith, placed.size, live.ready.some_slots)))
          (chains.entries tf.epilogues) live.ready.each live.stands;
  }
