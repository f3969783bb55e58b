-- ===== src/Packaging/Octets.antt =====
-- Bytes as numbers below 256: Python's slices, indices, `int.from_bytes` and `struct.unpack_from`.
pub mod ElfHeader
use sesori_apps_monorepo.Prelude.{
  ℕ, zero, suc, ◌+◌, ◌-◌, ◌*◌, Bool, true, false, ◌&&◌, List, [], ◌∷◌, ◌==◌, nat_eq, if◌then◌else◌,
}
use sesori_apps_monorepo.Prelude.Lists.{take, drop, length}
use sesori_apps_monorepo.Prelude.Exec.{Result, ok, err, index_error, struct_error}

-- `octets[first:last]`
abbrev pub slice : ℕ → ℕ → List ℕ → List ℕ
slice first last xs = take (last - first) (drop first xs)

-- `octets[n]`
unfoldable pub octet : List ℕ → ℕ → Result ℕ
octet [] n = err index_error
octet (x ∷ xs) zero = ok x
octet (x ∷ xs) (suc n) = octet xs n

-- `==` on bytes
abbrev pub same_octets : List ℕ → List ℕ → Bool
same_octets [] [] = true
same_octets (x ∷ xs) (y ∷ ys) = x == y && same_octets xs ys
same_octets _ _ = false

-- `int.from_bytes(octets, "little")`
unfoldable pub from_little : List ℕ → ℕ
from_little [] = 0
from_little (x ∷ xs) = x + 256 * from_little xs

-- `int.from_bytes(octets, "big")`, behind the octets that were read
unfoldable pub from_big_after : ℕ → List ℕ → ℕ
from_big_after n [] = n
from_big_after n (x ∷ xs) = from_big_after (n * 256 + x) xs

unfoldable pub from_big : List ℕ → ℕ
unfolding from_big_after
from_big xs = from_big_after 0 xs

-- `struct.unpack_from(format, octets, offset)[0]` of an unsigned number of `size` octets
unfoldable pub unpack : Bool → ℕ → List ℕ → ℕ → Result ℕ
unfolding from_little from_big
unpack is_little size octets offset =
    let part = slice offset (offset + size) octets in
    if length part == size
    then ok (if is_little then from_little part else from_big part)
    else err struct_error
