-- ===== src/Metadata/Dwarf.antt =====
-- src/metadata_dwarf.c: the functions that the debug information of a binary names. The loops run
-- on fuel. The entries that libdwarf has handed out and not got back are counted.
pub mod Entries
pub mod Units
pub mod Finite
pub mod Implements
use librave.Base.{
  ℕ, zero, suc, ◌+◌, ◌-◌, Bool, true, false, Option, none, some, ◌==◌, if◌then◌else◌, add64, sub64,
  Outcome, ok, fault, out_of_fuel, ◌>>=◌,
}
use librave.Errno.{Errno, success, edwarf, einval, is_success}
use librave.Memory.{Pointer, wild, null_pointer, fresh, at, allocate, release}
use librave.Elf.Libelf.{Libelf}
use librave.Elf.Binary.{Binary}
use librave.Transform.Store.{Store}
use librave.Transform.Data.{Function}
use librave.Metadata.{Callback, MetadataOp}
use librave.Metadata.Libdwarf.{Answer, got, no_entry, error, Libdwarf}

-- The constants of dwarf.h and libdwarf.h.
abbrev pub dw_tag_subprogram : ℕ
dw_tag_subprogram = 0x2e

abbrev pub dw_form_class_constant : ℕ
dw_form_class_constant = 3

-- One entry more if one has been obtained.
abbrev pub obtained : {A : Type 0} → Answer A → ℕ → ℕ
obtained (got a) dies = dies + 1
obtained _ dies = dies

-- `struct metadata`, without the pointer `binary`, which is never read. `dies` are the entries
-- that are held.
pub record Session {lib : Libelf} (dw : Libdwarf lib) : Type 0 where
  pub dbg : dw.Dbg
  pub dies : ℕ

-- A high address may be the length of the function.
abbrev pub high_address : ℕ → ℕ → ℕ → ℕ
high_address lo hi formclass = if formclass == dw_form_class_constant then add64 hi lo else hi

abbrev pub function_at : ℕ → ℕ → ℕ → Function
function_at lo hi formclass = record { addr = lo; len = sub64 (high_address lo hi formclass) lo }

module _ {lib : Libelf} (dw : Libdwarf lib) {S : Type 0} (cb : Callback S) where
  unfoldable pub get_function_hilo : dw.Die → S → Outcome (Errno × S)
  get_function_hilo die s = elim (dw.lowpc die) [
    | error ↦ ok (edwarf, s)
    | no_entry ↦ ok (success, s)
    | got lo ↦ elim (dw.highpc die) [
      | error ↦ ok (edwarf, s)
      | no_entry ↦ ok (success, s)
      | got (hi, formclass) ↦ cb (function_at lo hi formclass) s
    ]
  ]

  -- Only subprograms are of interest.
  unfoldable pub process_entry : dw.Die → ℕ → S → Outcome (Errno × S)
  unfolding get_function_hilo
  process_entry die tag s =
      if tag == dw_tag_subprogram then get_function_hilo die s else ok (success, s)

  -- The loop over the children: `next` is what the last call of libdwarf has answered.
  unfoldable pub siblings_loop : ℕ → dw.Dbg → Answer dw.Die → ℕ → S → Outcome (Errno × ℕ × S)
  unfolding process_entry
  siblings_loop zero dbg next dies s = out_of_fuel
  siblings_loop (suc fuel) dbg no_entry dies s = ok (success, dies, s)
  siblings_loop (suc fuel) dbg error dies s = ok (edwarf, dies, s)
  siblings_loop (suc fuel) dbg (got die) dies s = elim (dw.tag die) [
    | got tag ↦ process_entry die tag s >>= λ (rc, s'). elim (is_success rc) [
      | false ↦ ok (rc, dies - 1, s')
      | true ↦
          siblings_loop fuel dbg (dw.siblingof dbg (some die))
            (obtained (dw.siblingof dbg (some die)) dies - 1) s'
    ]
    | _ ↦ ok (edwarf, dies - 1, s)
  ]

  unfoldable pub process_die_and_siblings : ℕ → dw.Dbg → dw.Die → ℕ → S → Outcome (Errno × ℕ × S)
  unfolding siblings_loop
  process_die_and_siblings fuel dbg cu_die dies s =
      siblings_loop fuel dbg (dw.child cu_die) (obtained (dw.child cu_die) dies) s

  -- The loop over the units, each with `deep` rounds for its children.
  unfoldable pub units_loop : ℕ → ℕ → Session dw → S → Outcome (Errno × Session dw × S)
  unfolding process_die_and_siblings
  units_loop deep zero self s = out_of_fuel
  units_loop deep (suc fuel) self s =
      let (answer, dbg) = dw.next_cu_header self.dbg in
      let self' : Session dw = record { dbg = dbg; dies = self.dies } in
      elim answer [
        | error ↦ ok (edwarf, self', s)
        | no_entry ↦ ok (success, self', s)
        | got _ ↦ elim (dw.siblingof dbg none) [
          | error ↦ ok (edwarf, self', s)
          | no_entry ↦ units_loop deep fuel self' s
          | got cu_die ↦
              process_die_and_siblings deep dbg cu_die (self.dies + 1) s >>= λ (rc, dies, s').
              let self'' : Session dw = record { dbg = dbg; dies = dies - 1 } in
              elim (is_success rc) [
                | false ↦ ok (rc, self'', s')
                | true ↦ units_loop deep fuel self'' s'
              ]
        ]
      ]

  -- A reader that has not been written cannot be used.
  unfoldable pub foreach_function :
      ℕ → ℕ → Pointer (Session dw) → S → Outcome (Errno × Pointer (Session dw) × S)
  unfolding units_loop
  foreach_function deep fuel (at self) s =
      units_loop deep fuel self s >>= λ (rc, self', s'). ok (rc, at self', s')
  foreach_function deep fuel wild s = fault
  foreach_function deep fuel null_pointer s = fault
  foreach_function deep fuel fresh s = fault

module _ {lib : Libelf} (dw : Libdwarf lib) where
  -- A failure leaves the object as it was.
  abbrev pub opened : Option dw.Dbg → Pointer (Session dw) → Errno × Pointer (Session dw)
  opened none self = (edwarf, self)
  opened (some dbg) self = (success, at (record { dbg = dbg; dies = 0 }))

  unfoldable pub init : Pointer (Session dw) → Binary lib → Outcome (Errno × Pointer (Session dw))
  init wild binary = fault
  init null_pointer binary = ok (einval, null_pointer)
  init fresh binary = ok (opened (dw.elf_init binary.elf) fresh)
  init (at self) binary = ok (opened (dw.elf_init binary.elf) (at self))

  -- The reader is of no use behind a successful close.
  unfoldable pub close : Pointer (Session dw) → Outcome (Errno × Pointer (Session dw))
  close wild = fault
  close null_pointer = ok (einval, null_pointer)
  close fresh = fault
  close (at self) = ok (if dw.finish self.dbg then (success, fresh) else (edwarf, at self))

  unfoldable pub create : Store → Pointer (Session dw) × Store
  unfolding allocate
  create store = allocate store

  unfoldable pub destroy : Pointer (Session dw) → Store → Outcome Store
  unfolding release
  destroy self store = release self store

-- `metadata_dwarf`, with fuel for the loops.
abbrev pub metadata_dwarf : {lib : Libelf} → Libdwarf lib → ℕ → ℕ → MetadataOp lib
metadata_dwarf dw deep fuel = record {
  Metadata = Session dw;
  create = create dw;
  destroy = destroy dw;
  init = init dw;
  close = close dw;
  foreach_function = λ self cb s. foreach_function dw cb deep fuel self s;
}
