-- ===== src/Rave/Serve/Tests.antt =====
-- A handle with one function loaded, over the theorems of the calls.
use librave.Base.{ℕ, ok, ◌+◌, ◌-◌, ◌^◌, ◌≡◌, refl, some, [], ◌∷◌, arith, Returns}
use librave.Random.{Draws}
use librave.Elf.Sample.{small, no_file}
use librave.Errno.{success}
use librave.Memory.{at, fresh, release}
use librave.Metadata.Dwarf.{close, destroy}
use librave.Transform.Store.{Store, free_block}
use librave.Rave.Life.{rave_close}
use librave.Rave.Sample.{code}
use librave.Rave.Serve.Ended.{rave_close-Session}
use librave.Transform.Sample.{sample, sample-IsEncodable, lists, lists-ChainLaws, permutable}
use librave.Window.{window_orig}
use librave.Rave.Handle.{Machine, Handle}
use librave.Rave.Life.Sample.{
  file, dwarf, function_text, loaded_handle, before, behind, loaded, permutable-IsServed,
}
use librave.Rave.Serve.{rave_randomize, rave_relocate}
use librave.Rave.Serve.Ready.{IsRoomy, Stands}
use librave.Rave.Serve.Randomized.{Live, Randomized, rave_randomize-Live}
use librave.Rave.Serve.Live.{IsServed-IsLive}
use librave.Transform.Permute.Balanced.Whole.{Balanced}
use librave.Transform.Permute.Every.{Reorders-refl}
use librave.Rave.Serve.Session.{Session, opened, relocated, loaded-Live}

abbrev draws : Draws
draws = λ k. k + 1

function_text-IsRoomy : IsRoomy function_text
function_text-IsRoomy = record {
  real = omega arith;
  small = omega arith;
  room = omega arith;
  buffer_room = omega arith;
}

permutable-Stands : Stands sample lists permutable
permutable-Stands = (record { starts = omega arith; sized = omega arith; ends = omega arith }, tt)

abbrev live :
    Live sample lists dwarf draws function_text
      (permutable ∷ [])
      loaded_handle
      behind
      (loaded_handle, behind)
live = record {
  text = refl;
  segment = refl;
  binary = refl;
  metadata = refl;
  store = refl;
  self = permutable ∷ [];
  transform = refl;
  same = Reorders-refl sample lists draws (some function_text) (permutable ∷ []);
  live = (
    IsServed-IsLive sample lists draws function_text function_text-IsRoomy permutable
        permutable-IsServed permutable-Stands,
    tt,
  );
  beyond = λ q far. refl;
}

rave_randomize-Live_example :
    Returns
      (λ (rc, h', m').
        (h'' : Handle small sample lists dwarf) × (h' ≡ some h'')
        × Live sample lists dwarf draws function_text
            (permutable ∷ [])
            loaded_handle
            behind
            (h'', m')
        × Randomized sample lists dwarf draws function_text loaded_handle
            (permutable ∷ [])
            behind
            rc
            h''
            m')
      (rave_randomize small sample lists dwarf draws (some loaded_handle) behind)
rave_randomize-Live_example =
    rave_randomize-Live sample sample-IsEncodable lists lists-ChainLaws dwarf draws function_text
      function_text-IsRoomy (permutable ∷ []) loaded_handle loaded_handle behind behind live

-- The handle with its code at 0x30000.
abbrev moved : Handle small sample lists dwarf
moved = record loaded_handle { reloc_offset = some (0x1000 + 2 ^ 64 - 0x30000) }

moves : Session sample lists dwarf draws (loaded_handle, behind) (moved, behind)
unfolding rave_relocate window_orig
moves = relocated opened 0x30000 refl

loaded-Live_example :
    Live sample lists dwarf draws function_text
      (permutable ∷ [])
      loaded_handle
      behind
      (moved, behind)
    × Returns
        (λ (rc, h', m').
          (h'' : Handle small sample lists dwarf) × (h' ≡ some h'')
          × Live sample lists dwarf draws function_text
              (permutable ∷ [])
              loaded_handle
              behind
              (h'', m'))
        (rave_randomize small sample lists dwarf draws (some moved) behind)
loaded-Live_example =
    loaded-Live sample sample-IsEncodable lists lists-ChainLaws dwarf draws function_text
      function_text-IsRoomy loaded_handle loaded_handle before behind (moved, behind) loaded
      (permutable-Stands, tt) moves

dwarf_closes : dwarf.close (at (record { dbg = 0; dies = 0 })) ≡ ok (success, fresh)
unfolding close
dwarf_closes = refl

dwarf_destroys : (store : Store) → dwarf.destroy fresh store ≡ ok (free_block store)
unfolding destroy release
dwarf_destroys store = refl

rave_close-Session_example :
    (k : ℕ) × (h' : Handle small sample lists dwarf) × (m' : Machine) × (rave_close small no_file
        sample lists dwarf
        (λ _. 0x70000)
        (some moved)
        behind
      ≡ ok (k, some h', m'))
    × (m'.store.blocks + 3 ≡ 4)
    × (m'.store.instrs ≡ 0)
rave_close-Session_example =
    rave_close-Session no_file sample refl sample-IsEncodable lists lists-ChainLaws dwarf
      (λ _. 0x70000) draws function_text function_text-IsRoomy code file loaded_handle loaded_handle
      before behind (moved, behind) success fresh loaded (permutable-Stands, tt) moves refl refl
      refl dwarf_closes dwarf_destroys (omega arith)
