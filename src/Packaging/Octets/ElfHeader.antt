-- ===== src/Packaging/Octets/ElfHeader.antt =====
-- The header of a 64-bit ELF file, as the ELF specification lays it out, and what is read from it.
use native.Mathlib.Nat.{pow-succ'}
use sesori_apps_monorepo.Prelude.{
  ℕ, zero, suc, ◌+◌, ◌*◌, ◌/◌, ◌%◌, ◌^◌, ◌<◌, ◌≡◌, refl, List, [], ◌∷◌, ◌++◌, arith,
}
use sesori_apps_monorepo.Packaging.Octets.{from_little}
use sesori_apps_monorepo.Packaging.AppImage.{squashfs_start}

-- a number in so many octets, the lowest first
unfoldable pub little : ℕ → ℕ → List ℕ
little zero n = []
little (suc k) n = (n % 256) ∷ little k (n / 256)

-- The fields of Elf64_Ehdr in their order; `ident` is the number that the 16 octets of `e_ident` make
pub record ElfHeader : Type 0 where
  pub ident : ℕ
  pub kind : ℕ
  pub machine : ℕ
  pub version : ℕ
  pub entry : ℕ
  pub program_offset : ℕ
  pub section_offset : ℕ
  pub flags : ℕ
  pub header_size : ℕ
  pub program_size : ℕ
  pub program_count : ℕ
  pub section_size : ℕ
  pub section_count : ℕ
  pub names_index : ℕ

-- octets one after the other
unfoldable pub joined : List (List ℕ) → List ℕ
joined [] = []
joined (part ∷ parts) = part ++ joined parts

-- the header as it stands in the file, little-endian
unfoldable pub encode : ElfHeader → List ℕ
unfolding joined
encode h = joined (
    little 16 h.ident
    ∷ little 2 h.kind
    ∷ little 2 h.machine
    ∷ little 4 h.version
    ∷ little 8 h.entry
    ∷ little 8 h.program_offset
    ∷ little 8 h.section_offset
    ∷ little 4 h.flags
    ∷ little 2 h.header_size
    ∷ little 2 h.program_size
    ∷ little 2 h.program_count
    ∷ little 2 h.section_size
    ∷ little 2 h.section_count
    ∷ little 2 h.names_index
    ∷ [])

from_little-little : (k n : ℕ) → n < 256 ^ k → from_little (little k n) ≡ n
unfolding from_little little
from_little-little zero n h = omega arith
from_little-little (suc k) n h =
    let h = rw (pow-succ' 256 k) at h in
    let rest = from_little-little k (n / 256) (omega arith) in omega arith

-- Where the squashfs begins in the header of an image: behind the table of its sections, which
-- begins at the section offset and has as many entries of the section size as the section count. Of
-- a header with numbers in their bounds, whatever follows it in the file.
pub squashfs_start-encode :
    (h : ElfHeader) (rest : List ℕ)
    → h.section_offset < 256 ^ 8
    → h.section_size < 256 ^ 2
    → h.section_count < 256 ^ 2
    → squashfs_start (encode h ++ rest) ≡ h.section_offset + h.section_size * h.section_count
unfolding squashfs_start encode joined little
squashfs_start-encode h rest o s c =
    rw
      (
        from_little-little 8 h.section_offset o,
        from_little-little 2 h.section_size s,
        from_little-little 2 h.section_count c,
      )
      refl
