-- ===== src/Rave/Life.antt =====
-- `rave_init` and `rave_close`.
pub mod Failures
pub mod Located
pub mod Opened
pub mod Started
pub mod Sample
pub mod Copies
pub mod Loaded
pub mod Closing
mod Tests
use librave.Base.{
  ℕ, ◌+◌, Bool, not, Option, none, some, List, [], ◌∷◌, bit_or, Outcome, ok, fault, ◌>>=◌,
  if◌then◌else◌, ◌==◌, sign_extend,
}
use librave.Errno.{Errno, success, enomem, code, is_success}
use librave.Memory.{Pointer, wild, null_pointer, fresh, at}
use librave.Window.{Window, null, window_get}
use librave.Elf.Libelf.{Libelf, FileHeader}
use librave.Elf.Files.{Files}
use librave.Elf.Section.{Section, section_address}
use librave.Elf.Segment.{Segment}
use librave.Elf.Binary.{Binary, binary_init, binary_close, binary_find_section, binary_find_segment}
use librave.Transform.Dr.{Dr}
use librave.Transform.Chains.{Chains}
use librave.Transform.Store.{Store, free_block}
use librave.Transform.Life.{transform_create, transform_init, transform_close, transform_destroy}
use librave.Metadata.{MetadataOp}
use librave.Rave.Handle.{Machine, Handle, process_function}
use librave.Rave.Pages.{map_code_pages}

-- ".text"
abbrev pub text_name : List ℕ
text_name = 46 ∷ 116 ∷ 101 ∷ 120 ∷ 116 ∷ []

abbrev pub is_null : {A : Type 0} → Pointer A → Bool
is_null null_pointer = Bool.true
is_null _ = Bool.false

-- A value that has been written.
abbrev pub present : {A : Type 0} → Option A → Outcome A
present none = fault
present (some a) = ok a

module _ (lib : Libelf) (files : Files) (dr : Dr) (chains : Chains) (mop : MetadataOp lib)
    (calloc_at : Store → ℕ) where
  abbrev pub Rave : Type 0
  Rave = Handle lib dr chains mop

  -- The handle, and the machine behind it.
  abbrev pub Run : Type 0
  Run = Outcome (Errno × Rave × Machine)

  -- `if (code_mapping) rave_free(code_mapping)`
  abbrev pub free_code : ℕ → Store → Store
  free_code mapping store = if mapping == null then store else free_block store

  -- The codes of the four parts are joined by `|`.
  unfoldable pub close_parts : Rave → Machine → Outcome (ℕ × Rave × Machine)
  unfolding window_get binary_close transform_close transform_destroy code
  close_parts h m = do
    segment ← present h.segment
    let store = free_code (window_get (some segment) none).0 m.store
    (rc, metadata) ← mop.close h.metadata
    store' ← mop.destroy metadata store
    binary ← present h.binary
    let (rc', binary') = binary_close lib files (some binary)
    (rc'', transform, store'') ← transform_close dr chains h.transform store'
    store''' ← transform_destroy dr chains transform store''
    ok (
      bit_or (bit_or (code rc) (code rc')) (code rc''),
      record h { metadata = metadata; binary = binary'; transform = transform },
      record m { store = store''' },
    )

  -- `none` is NULL.
  unfoldable pub rave_close : Option Rave → Machine → Outcome (ℕ × Option Rave × Machine)
  unfolding close_parts
  rave_close none m = ok (0, none, m)
  rave_close (some h) m = close_parts h m >>= λ (rc, h', m'). ok (rc, some h', m')

  -- The label `err`.
  unfoldable pub abort : Errno → Rave → Machine → Run
  unfolding close_parts
  abort rc h m = close_parts h m >>= λ (_, h', m'). ok (rc, h', m')

  -- Behind `transform_init`: the pages, and the functions that the metadata names.
  unfoldable pub load : Section lib → Segment lib → Rave → Machine → Run
  unfolding map_code_pages process_function
  load text segment h m = do
    (rc, h', m') ← map_code_pages lib dr chains mop calloc_at h text segment m
    if not (is_success rc)
        then ok (rc, h', m')
        else (mop.foreach_function h'.metadata (process_function lib dr chains mop) (h', m')
            >>= λ (rc', metadata, (h'', m'')). ok (rc', record h'' { metadata = metadata }, m''))

  -- Behind `binary_find_segment`.
  unfoldable pub start_parts : Binary lib → Section lib → Segment lib → Rave → Machine → Run
  unfolding load transform_init
  start_parts binary text segment h m = do
    (rc, metadata) ← mop.init h.metadata binary
    let h' = record h { metadata = metadata }
    if not (is_success rc)
        then ok (rc, h', m)
        else (transform_init dr chains h'.transform >>= λ (rc', transform).
            let h'' = record h' { transform = transform } in
            if not (is_success rc') then abort rc' h'' m else load text segment h'' m)

  -- Behind `binary_init`: the section and the segment.
  unfoldable pub locate : Binary lib → Rave → Machine → Run
  unfolding start_parts abort binary_find_section binary_find_segment section_address
  locate binary h m = do
    elf ← present binary.elf
    header ← present binary.header
    let (rc, found) = binary_find_section lib elf header text_name
    if not (is_success rc)
        then abort rc h m
        else (present found >>= λ text.
            let (rc', found') =
              binary_find_segment lib elf header (sign_extend (section_address text)) in
            if not (is_success rc')
            then ok (rc', h, m)
            else (present found' >>= λ segment. start_parts binary text segment h m))

  -- Behind the allocations. `initialized` is the static variable of src/binary.c.
  unfoldable pub open_binary :
      Bool → files.Name → Rave → Machine → Outcome (Errno × Bool × Rave × Machine)
  unfolding binary_init locate abort
  open_binary initialized filename h m =
      let (rc, binary, initialized') = binary_init lib files initialized filename in
      let h' = record h { binary = some binary } in
      (if not (is_success rc) then abort rc h' m else locate binary h' m) >>= λ (rc', h'', m').
      ok (rc', initialized', h'', m')

  -- `none` is NULL, for which `return 0` is the code of success.
  unfoldable pub rave_init :
      Bool → Option Rave → files.Name → Machine → Outcome (Errno × Bool × Option Rave × Machine)
  unfolding open_binary transform_create
  rave_init initialized none filename m = ok (success, initialized, none, m)
  rave_init initialized (some h) filename m =
      let (metadata, store) = mop.create m.store in
      let (transform, store') = transform_create dr chains store in
      if is_null metadata
      then ok
          (enomem, initialized, some (record h { metadata = metadata }), record m { store = store })
      else if is_null transform
      then ok (
        enomem,
        initialized,
        some (record h { metadata = metadata; transform = transform }),
        record m { store = store' },
      )
      else (open_binary initialized filename
            (record h { metadata = metadata; transform = transform }) (record m { store = store' })
          >>= λ (rc, initialized', h', m'). ok (rc, initialized', some h', m'))
