-- ===== src/Metadata/Dwarf/Implements.antt =====
-- `metadata_dwarf` implements the interface of the metadata.
use librave.Base.{ℕ, subst, Settles-weaken, ◌<◌, ◌≡◌, refl, Option, none, some, ok, Settles}
use librave.Errno.{success}
use librave.Memory.{Pointer, at, wild, null_pointer, fresh}
use librave.Elf.Libelf.{Libelf}
use librave.Metadata.{Callback}
use librave.Metadata.Laws.{Keeps, MetadataLaws}
use librave.Metadata.Libdwarf.{Libdwarf}
use librave.Metadata.Dwarf.{Session, opened, init, foreach_function, metadata_dwarf}
use librave.Elf.Binary.{Binary}
use librave.Metadata.Dwarf.Units.{held}
use librave.Metadata.Dwarf.Finite.{DwarfLaws, foreach_function-Settles}

-- `metadata_dwarf` keeps what its client uses, over such entries.
pub metadata_dwarf-MetadataLaws :
    {lib : Libelf} (dw : Libdwarf lib) (deep fuel : ℕ)
    → DwarfLaws dw deep fuel
    → MetadataLaws (metadata_dwarf dw deep fuel)
unfolding foreach_function init
metadata_dwarf-MetadataLaws {lib} dw deep fuel laws = record {
  Ready = Readies;
  init-Ready = opens;
  foreach_function-Settles = walks;
}
  where
    Readies : Pointer (Session dw) → Type 0
    Readies (at self) = laws.unit_rank self.dbg < fuel
    Readies _ = ⊥

    opened-Readies :
        (elf : Option lib.Elf) (p p' : Pointer (Session dw)) (dbg : Option dw.Dbg)
        → dw.elf_init elf ≡ dbg
        → opened dw dbg p ≡ (success, p')
        → Readies p'
    opened-Readies elf p p' none from e = absurd (cc)
    opened-Readies elf p p' (some dbg) from e =
        let same : Pointer.at (record { dbg = dbg; dies = 0 }) ≡ p' = cc in
        subst Readies same (laws.opened_below elf dbg from)

    opens :
        (p p' : Pointer (Session dw)) (binary : Binary lib)
        → init dw p binary ≡ ok (success, p')
        → Readies p'
    opens wild p' binary e = absurd (cc)
    opens null_pointer p' binary e = absurd (cc)
    opens fresh p' binary e = opened-Readies binary.elf fresh p' _ refl (cc)
    opens (at self) p' binary e = opened-Readies binary.elf (at self) p' _ refl (cc)

    walks :
        {S : Type 0} (cb : Callback S) (D : Type 0) (P : S → Type 0)
        → Keeps cb D P
        → (p : Pointer (Session dw)) (s : S) → Readies p
        → P s
        → Settles D (λ (rc, p', s'). P s') (foreach_function dw cb deep fuel p s)
    walks cb D P keeps wild s h p = absurd h
    walks cb D P keeps null_pointer s h p = absurd h
    walks cb D P keeps fresh s h p = absurd h
    walks {S} cb D P keeps (at self) s h p =
        Settles-weaken D (λ (rc, k, s'). (held k ≡ some self.dies) × P s') (λ (rc, k, s'). P s') _
          (foreach_function-Settles dw deep fuel laws cb D P keeps self.dbg self.dies s h p)
          (λ (rc, k, s') (same, p'). p')
