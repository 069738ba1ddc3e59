-- ===== src/Rave/Tests.antt =====
-- A handle on the sample library and the sample disassembler, over the theorems of the handle.
use librave.Base.{ℕ, ◌+◌, ◌%◌, ◌^◌, ◌≤◌, ◌<◌, ◌≡◌, ◌⊎◌, inr, refl, none, some, [], ok, arith}
use librave.Errno.{success}
use librave.Memory.{at}
use librave.Util.{page_up}
use librave.Window.{Window, window_view}
use librave.Window.Range.{IsBacked}
use librave.Elf.Sample.{small}
use librave.Transform.Sample.{sample, lists, one_exit}
use librave.Transform.Data.{Function}
use librave.Rave.Handle.{Machine, Handle, unwritten, process_function}
use librave.Rave.Handle.Bounds.{process_function_lem}
use librave.Base.{true}
use librave.Rave.Pages.{in_mapping, map_code_pages}
use librave.Rave.Pages.Filled.{copy_of, map_code_pages-copy_of}
use librave.Rave.Pages.Views.{window_view-window_view}
use librave.Rave.Serve.{rave_relocate, rave_handle_fault}
use librave.Rave.Serve.Relocated.{moved_page, rave_relocate-rave_handle_fault}
use librave.Rave.Sample.{one_entry, code, machine, section, segment, loads}

abbrev Rave : Type 0
Rave = Handle small sample lists (one_entry small)

abbrev text : Window
text = record { orig = 0x1010; data_ptr = 0x70010; length = 0x100 }

abbrev handle : Rave
handle = record (unwritten small sample lists (one_entry small)) {
  binary = some (record { elf = some 7; header = none; mapping = 0x5000; file_size = 0x2000 });
  segment = some code;
  text = some text;
  transform = at [];
}

code-IsBacked : IsBacked code
code-IsBacked = record { below_end = omega arith; buffer_below_end = omega arith }

text-IsBacked : IsBacked text
text-IsBacked = record { below_end = omega arith; buffer_below_end = omega arith }

rave_relocate-rave_handle_fault_example :
    (h' : Rave) × (rave_relocate small sample lists (one_entry small) (some handle) 0x30000
      ≡ ok (success, some h'))
    × ((a : ℕ)
        → a < 2 ^ 64
        → rave_handle_fault small sample lists (one_entry small) (some h') a
          ≡ ok (moved_page code 0x30000 a))
rave_relocate-rave_handle_fault_example =
    rave_relocate-rave_handle_fault handle code 0x30000 refl code-IsBacked refl refl (omega arith)

-- Ends where the text ends.
abbrev last_function : Function
last_function = record { addr = 0x1100; len = 0x10 }

process_function_lem_example :
    process_function small sample lists (one_entry small) last_function (handle, machine)
    ≡ ok (success, (handle, machine))
process_function_lem_example =
    process_function_lem last_function handle machine text refl text-IsBacked (omega arith)

window_view-window_view_example :
    (window_view (some text) 0x1020 none).0 ≡ (window_view (some code) 0x1020 none).0
window_view-window_view_example =
    window_view-window_view code text 0x1010 0x1000 0x1020 code-IsBacked refl (omega arith)
      (omega arith) refl (omega arith) refl

apart : 0x70000 + page_up 0x400 ≤ 0x5000 + 0x1000 ⊎ (0x5000 + 0x1000 + 0x300 ≤ 0x70000)
apart = inr (omega arith)

in_file :
    in_mapping {lib = small}
      (record { elf = some 7; header = none; mapping = 0x5000; file_size = 0x2000 })
      0x1000
      0x300
    ≡ true
unfolding page_up
in_file = refl

map_code_pages-copy_of_example :
    (h' : Rave) × (m' : Machine) × (length : ℕ) × (map_code_pages small sample lists
        (one_entry small)
        (λ _. 0x70000)
        handle
        section
        segment
        machine
      ≡ ok (success, h', m'))
    × (h'.segment ≡ some (record { orig = 0x1000; data_ptr = 0x70000; length = length }))
    × (length % 4096 ≡ 0)
    × (0x400 ≤ length)
    × (length < 0x400 + 4096)
    × ((q : ℕ) → m'.world.bytes q ≡ copy_of one_exit 0x70000 0x6000 0x300 length q)
map_code_pages-copy_of_example =
    map_code_pages-copy_of (λ _. 0x70000) handle section segment machine
      (record { elf = some 7; header = none; mapping = 0x5000; file_size = 0x2000 }) refl loads refl
      (omega arith) (omega arith) in_file (omega arith) apart
