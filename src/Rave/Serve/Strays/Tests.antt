-- ===== src/Rave/Serve/Strays/Tests.antt =====
-- A function with two exits, the second of which is kept outside it.
use librave.Base.{Yields, ℕ, List, ok, ◌≢◌, ◌+◌, ◌-◌, ◌≡◌, refl, some, [], ◌∷◌, arith}
use librave.Random.{Draws}
use librave.Elf.Sample.{small}
use librave.Errno.{success, is_success}
use librave.Memory.{at}
use librave.Transform.Dr.{Bytes}
use librave.Transform.Store.{Store}
use librave.Transform.Sets.{InstrSet, next_set, test_instr_prologue, test_instr_epilogue}
use librave.Base.Slots.{read, write}
use librave.Transform.Mirror.{is_epilogue}
use librave.Transform.Add.{transform_add_function}
use librave.Transform.Add.{add_function}
use librave.Transform.Sets.{checked}
use librave.Transform.Data.{Transformable}
use librave.Rave.Serve.Strays.{rave_randomize-Strays}
use librave.Transform.Permute.Strays.{Strays}
use librave.Transform.Sample.{sample, lists, function, byte_at, plenty}
use librave.Window.{window_view, window_init}
use librave.Rave.Life.Sample.{dwarf, function_text, loaded_handle, behind}
use librave.Rave.Serve.{rave_randomize}

abbrev draws : Draws
draws = λ k. k + 1

-- push r3; push r4; nop; pop r4; pop r3; nop; pop r4; pop r3, at 0x1000.
abbrev two_exits : Bytes
two_exits p = byte_at (0x53 ∷ 0x54 ∷ 0x90 ∷ 0x5c ∷ 0x5b ∷ 0x90 ∷ 0x5c ∷ 0x5b ∷ []) (p - 0x1000)

-- The second exit stands at 0x400006.
abbrev second_exit : InstrSet ℕ
second_exit = record { start = 0x400008; end = 0x40000a; nr_instrs = 2; instrs = 0x5c ∷ 0x5b ∷ [] }

abbrev twice : Transformable ℕ (λ A. List A)
twice = record {
  function = function;
  prologue = record { start = 0x400000; end = 0x400002; nr_instrs = 2; instrs = 0x53 ∷ 0x54 ∷ [] };
  epilogues =
      record { start = 0x400003; end = 0x400005; nr_instrs = 2; instrs = 0x5c ∷ 0x5b ∷ [] }
      ∷ second_exit
      ∷ [];
  order = some (0 ∷ 1 ∷ []);
}

-- This is what `transform_add_function` keeps of that code.
two_exits_added :
    (store : Store) × (transform_add_function sample lists two_exits [] function 0x1000 plenty
      ≡ ok (success, twice ∷ [], store))
unfolding transform_add_function add_function checked next_set is_epilogue test_instr_prologue
    is_success write test_instr_epilogue read
two_exits_added = (_, refl)

twice-Strays : Strays sample lists draws (some function_text) twice
unfolding window_view window_init
twice-Strays = record {
  before =
      record { start = 0x400003; end = 0x400005; nr_instrs = 2; instrs = 0x5c ∷ 0x5b ∷ [] } ∷ [];
  stray = second_exit;
  behind = [];
  among = refl;
  some_slots = omega arith;
  unseen = refl;
}

rave_randomize-Strays_example :
    Yields
      (λ (rc, h', m'). rc ≢ success)
      (rave_randomize small sample lists dwarf draws
        (some (record loaded_handle { transform = at (twice ∷ []) }))
        behind)
rave_randomize-Strays_example =
    rave_randomize-Strays sample lists dwarf draws
      (record loaded_handle { transform = at (twice ∷ []) }) behind function_text (twice ∷ []) [] []
      twice refl refl refl twice-Strays
