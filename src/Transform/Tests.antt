-- ===== src/Transform/Tests.antt =====
-- The sample disassembler over the theorems of the transformation.
use mathlib.Core.List.Perm
use librave.Base.{
  ℕ, ◌+◌, ◌≡◌, ◌↔◌, refl, Bool, true, Option, none, some, List, [], ◌∷◌, map, reverse, Perm, arith,
  replicate, Returns, Settles, ok, Yields, ◌≢◌, false,
}
use librave.Base.Orders.{IsOrder, count_up, perm-IsOrder}
use librave.Base.Slots.{read, write}
use librave.Errno.{success, is_success}
use librave.Transform.Sample.{
  prologue, epilogue, function, permutable, sample, sample-Decodes, lists, lists-ChainLaws,
  sample-IsEncodable, sample-Inverts, plenty, one_exit,
}
use librave.Transform.Sets.{
  InstrSet, Cursor, scanned, test_instr_prologue, test_instr_epilogue, next_set, checked,
}
use librave.Transform.Sets.Runs.{Stops, Found, IsRun}
use librave.Transform.Sets.Loop.{next_set-Found}
use librave.Transform.Mirror.{is_epilogue}
use librave.Transform.Mirror.Reverse.{pushed, popped, is_epilogue_iff}
use librave.Transform.Add.{add_function, raw, Search, again, search_step, transform_add_function}
use librave.Transform.Data.{blank}
use librave.Memory.{at}
use librave.Transform.Store.{Store}
use librave.Transform.Held.{objects, Holding}
use librave.Transform.Add.Ledger.{Ledger, transform_add_function-Ledger}
use librave.Transform.Add.Whole.{transform_add_function-Left, transform_add_function-Added}
use librave.Transform.Add.Added.{Left, Added}
use librave.Transform.Life.{transform_close}
use librave.Transform.Life.Closed.{all_parts, all_instrs, transform_close-Holding}
use librave.Transform.Code.{total}
use librave.Transform.Add.Drift.{Ahead, search_step-Ahead}
use librave.Transform.Add.Rounds.{Refuses}
use librave.Transform.Encode.{arrange, instr_set_encode_order}
use librave.Transform.Encode.Overread.{instr_set_encode_order-trapped}
use librave.Transform.Dr.{Dr}
use librave.Transform.Encode.Decoded.{Readable, instr_set_encode_order-Readable}
use librave.Transform.Encode.Rewritten.{Rewritten, instr_set_encode_order-Rewritten}
use librave.Transform.Permute.{mirror_order}
use librave.Transform.Permute.Mirrored.{popped_slots, pushed_slots, arrange-mirrors}

abbrev start : Cursor ℕ
start = record { walk = 0x1000; orig = 0x400000; set = blank ℕ; store = plenty }

finds_prologue :
    next_set sample one_exit 0x1008 (some (test_instr_prologue sample)) start
    ≡ ok (
        scanned success (record {
          walk = 0x1004;
          orig = 0x400004;
          set = prologue;
          store = record { grants = λ _. true; asked = 3; blocks = 0; instrs = 2; stale = 0 };
        }))
unfolding next_set checked test_instr_prologue
finds_prologue = refl

next_set-Found_example :
    Returns
      (Found sample one_exit 0x1008 (some (test_instr_prologue sample)) 0x1000 0x400000 0 0)
      (next_set sample one_exit 0x1008 (some (test_instr_prologue sample)) start)
next_set-Found_example =
    next_set-Found sample sample-Decodes one_exit 0x1008 (some (test_instr_prologue sample)) start
      (omega arith)

is_epilogue_iff_example :
    (b : Bool) × (is_epilogue sample prologue epilogue ≡ ok b)
    × ((b ≡ true) ↔ (popped sample epilogue ≡ reverse (pushed sample prologue)))
is_epilogue_iff_example = is_epilogue_iff sample prologue epilogue refl refl

-- The order that exchanges the two slots.
exchanged : IsOrder 2 (1 ∷ 0 ∷ [])
unfolding count_up
exchanged = perm-IsOrder 2 (1 ∷ 0 ∷ []) (Perm.swap 0 1 []) refl

arrange-mirrors_example :
    (eorder : List ℕ) × (outp oute : List (Option ℕ)) × (mirror_order 2 (1 ∷ 0 ∷ []) ≡ ok eorder)
    × (arrange sample (0x53 ∷ 0x54 ∷ []) (1 ∷ 0 ∷ []) 0 (replicate 2 none) ≡ ok outp)
    × (arrange sample (0x5c ∷ 0x5b ∷ []) eorder 0 (replicate 2 none) ≡ ok oute)
    × Perm outp (map some (0x53 ∷ 0x54 ∷ []))
    × Perm oute (map some (0x5c ∷ 0x5b ∷ []))
    × (popped_slots sample oute ≡ reverse (pushed_slots sample outp))
arrange-mirrors_example =
    arrange-mirrors sample prologue epilogue 2 (1 ∷ 0 ∷ []) exchanged (omega arith) refl refl refl

-- The function is added. The blocks that stay are the transformable, its order and the epilogue,
-- and the objects those of the two sets.
adds_function :
    transform_add_function sample lists one_exit [] function 0x1000 plenty
    ≡ ok (
      success,
      record {
        function = function;
        prologue = prologue;
        epilogues =
            record { start = 0x400004; end = 0x400006; nr_instrs = 2; instrs = 0x5c ∷ 0x5b ∷ [] }
            ∷ [];
        order = some (0 ∷ 1 ∷ []);
      }
          ∷ [],
      record { grants = λ _. true; asked = 11; blocks = 3; instrs = 4; stale = 0 },
    )
unfolding transform_add_function add_function checked next_set test_instr_prologue is_success write
    test_instr_epilogue is_epilogue read
adds_function = refl

transform_add_function-Added_example :
    Settles
      (Refuses (λ _. true))
      (Added sample lists function [] (λ _. true))
      (transform_add_function sample lists one_exit [] function 0x1000 plenty)
transform_add_function-Added_example =
    transform_add_function-Added sample sample-Decodes lists lists-ChainLaws function [] one_exit
      0x1000 plenty (omega arith)

instr_set_encode_order-Rewritten_example :
    (is : List ℕ) × Perm is (0x53 ∷ 0x54 ∷ [])
    × Returns
        (Rewritten sample one_exit 0x1001 0x400001 0x400003 is)
        (instr_set_encode_order sample prologue 0x1001 (1 ∷ 0 ∷ []) one_exit)
instr_set_encode_order-Rewritten_example =
    instr_set_encode_order-Rewritten sample prologue 0x1001 (1 ∷ 0 ∷ []) one_exit sample-IsEncodable
      refl exchanged (omega arith) (omega arith) (omega arith) (omega arith) (omega arith)

instr_set_encode_order-Readable_example :
    (is : List ℕ) × Perm is (0x53 ∷ 0x54 ∷ [])
    × Returns
        (Readable sample 0x1001 0x400001 2 is)
        (instr_set_encode_order sample prologue 0x1001 (1 ∷ 0 ∷ []) one_exit)
unfolding total
instr_set_encode_order-Readable_example =
    instr_set_encode_order-Readable sample sample-Decodes sample-Inverts one_exit prologue 0x1001
      (1 ∷ 0 ∷ []) sample-IsEncodable refl exchanged (omega arith) (omega arith) (omega arith)
      (omega arith) (omega arith)

-- Behind the prologue: the walk and the address are in step.
abbrev searching : Search ℕ (λ A. List A)
searching = record {
  walk = 0x1004;
  orig = 0x400004;
  set = raw;
  epilogues = [];
  store = record { grants = λ _. true; asked = 6; blocks = 3; instrs = 2; stale = 0 };
}

-- Behind the epilogue of two bytes: the walk has moved by three, the address by five.
abbrev searched : Search ℕ (λ A. List A)
searched = record {
  walk = 0x1007;
  orig = 0x400009;
  set = raw;
  epilogues = epilogue ∷ [];
  store = record { grants = λ _. true; asked = 10; blocks = 4; instrs = 4; stale = 0 };
}

one_round : search_step sample lists one_exit 0x1008 prologue searching ≡ ok (again searched)
unfolding search_step next_set checked is_success write test_instr_epilogue is_epilogue read
one_round = refl

search_step-Ahead_example :
    (set : InstrSet ℕ) × (w₂ o₂ o₃ : ℕ) × IsRun sample one_exit
      (some (test_instr_epilogue sample))
      0x1004
      0x400004
      set
      w₂
      o₂
    × Stops sample one_exit 0x1008 (some (test_instr_epilogue sample)) set w₂ o₂ searched.walk o₃
    × Ahead 0x3ff000 (0 + total sample set.instrs) searched
search_step-Ahead_example =
    search_step-Ahead sample sample-Decodes lists one_exit 0x1008 prologue searching searched
      0x3ff000 0 (omega arith) refl one_round

transform_add_function-Ledger_example :
    Settles
      (Refuses (λ _. true))
      (Ledger sample lists one_exit function 0x1000 [] plenty)
      (transform_add_function sample lists one_exit [] function 0x1000 plenty)
transform_add_function-Ledger_example =
    transform_add_function-Ledger sample sample-Decodes lists lists-ChainLaws function [] one_exit
      0x1000 plenty (omega arith)

transform_add_function-Left_example : Returns (Left sample lists [] (λ _. true)) (
    transform_add_function sample lists one_exit []
      (record { addr = 0x400000; len = 0 })
      0x1000
      plenty)
transform_add_function-Left_example =
    transform_add_function-Left sample lists lists-ChainLaws (record { addr = 0x400000; len = 0 })
      [] one_exit 0x1000 plenty (omega arith)

abbrev three_blocks : Store
three_blocks = record { grants = λ _. true; asked = 9; blocks = 3; instrs = 4; stale = 0 }

transform_close-Holding_example :
    (store' : Store) × (transform_close sample lists (at (permutable ∷ [])) three_blocks
      ≡ ok (success, at [], store'))
    × Holding 1 0 store'
    × (store'.stale ≡ 4)
unfolding all_parts all_instrs objects
transform_close-Holding_example =
    transform_close-Holding sample lists refl (permutable ∷ []) three_blocks 0 0
      (record { blocks_held = refl; instrs_held = refl })

-- The sample on a machine that traps the read.
abbrev trapping : Dr
trapping = record sample { overreads = false }

instr_set_encode_order-trapped_example :
    Yields
      (λ (rc, pen). rc ≢ success)
      (instr_set_encode_order trapping prologue 0x1001 (1 ∷ 0 ∷ []) one_exit)
instr_set_encode_order-trapped_example =
    instr_set_encode_order-trapped trapping refl prologue 0x1001 (1 ∷ 0 ∷ []) one_exit
