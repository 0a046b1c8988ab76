-- ===== src/Scanner/Hash.antt =====
-- internal/scanner/identity.go: the content hash of a file, from its first and last 64 KiB.
pub mod Windows
use Prim.Native.String.{String}
use choix.Base.{ℕ, zero, suc, ◌-◌, ◌*◌, List, [], ◌∷◌, ◌++◌, length, if◌then◌else◌, leb}

abbrev pub hash_window : ℕ
hash_window = 65536

-- The first n bytes, and all but the first n.
unfoldable pub first_bytes : ℕ → List ℕ → List ℕ
first_bytes zero bytes = []
first_bytes (suc n) [] = []
first_bytes (suc n) (b ∷ bytes) = b ∷ first_bytes n bytes

unfoldable pub skip_bytes : ℕ → List ℕ → List ℕ
skip_bytes zero bytes = bytes
skip_bytes (suc n) [] = []
skip_bytes (suc n) (b ∷ bytes) = skip_bytes n bytes

-- What ContentHash writes to the hash.
unfoldable pub hashed_bytes : List ℕ → List ℕ
unfolding first_bytes skip_bytes
hashed_bytes bytes =
    let size = length bytes in
    if leb size (2 * hash_window)
    then bytes
    else first_bytes hash_window bytes
      ++ first_bytes hash_window (skip_bytes (size - hash_window) bytes)

-- ContentHash; `xxhash` is the hash with its hexadecimal digits.
abbrev pub content_hash : (List ℕ → String) → List ℕ → String
content_hash xxhash bytes = xxhash (hashed_bytes bytes)
