-- ===== src/Rave/Sample.antt =====
-- A handle's windows and a file's section and segment, and metadata that names one function, on
-- which the theorems of the handle are tried.
use librave.Base.{ℕ, Outcome, ok, fault, ◌>>=◌, ◌≡◌, refl, true, some, []}
use librave.Errno.{Errno, success, einval}
use librave.Memory.{Pointer, wild, null_pointer, at, allocate, release}
use librave.Elf.Libelf.{Libelf}
use librave.Elf.Binary.{Binary}
use librave.Transform.Data.{Function}
use librave.Metadata.{MetadataOp}
use librave.Util.{page_up}
use librave.Window.{Window}
use librave.Elf.Section.{Section}
use librave.Elf.Segment.{Segment, segment_loadable}
use librave.Elf.Sample.{small}
use librave.Transform.Sample.{plenty, one_exit}
use librave.Rave.Handle.{Machine}

abbrev pub code : Window
code = record { orig = 0x1000; data_ptr = 0x70000; length = 0x1000 }

abbrev pub machine : Machine
machine = record { world = record { bytes = one_exit; drawn = 0 }; store = plenty }

abbrev pub section : Section small
section = record {
  elf = 7;
  header = record { sh_name = 2; sh_addr = 0x1010; sh_offset = 0x1010; sh_size = 0x100 };
  data_ptr = some 2;
  name = [];
}

abbrev pub segment : Segment small
segment = record {
  elf = 7;
  header = record {
    p_type = 1;
    p_offset = 0x1000;
    p_vaddr = 0x1000;
    p_filesz = 0x300;
    p_memsz = 0x400;
  };
}

pub loads : segment_loadable segment ≡ true
unfolding segment_loadable
loads = refl

pub rounded : page_up 0x400 ≡ 0x1000
unfolding page_up
rounded = refl

abbrev pub one_function : Function
one_function = record { addr = 0x1010; len = 0x20 }

-- A pointer that can be used, once the object is initialised.
abbrev opened : {lib : Libelf} → Pointer ℕ → Binary lib → Outcome (Errno × Pointer ℕ)
opened wild binary = fault
opened null_pointer binary = ok (einval, null_pointer)
opened _ binary = ok (success, at 0)

abbrev closed : Pointer ℕ → Outcome (Errno × Pointer ℕ)
closed null_pointer = ok (einval, null_pointer)
closed (at n) = ok (success, at n)
closed _ = fault

abbrev pub one_entry : (lib : Libelf) → MetadataOp lib
one_entry lib = record {
  Metadata = ℕ;
  create = λ store. allocate store;
  destroy = λ p store. release p store;
  init = opened;
  close = closed;
  foreach_function = λ p cb s. cb one_function s >>= λ (rc, s'). ok (rc, p, s');
}
