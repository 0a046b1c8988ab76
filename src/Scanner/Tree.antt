-- ===== src/Scanner/Tree.antt =====
-- The files and folders below a scan root.
use Prim.Native.String.{String, ◌++◌}
use text.Mathlib.Text.{◌==◌ as str_eq}
use choix.Base.{ℕ, if◌then◌else◌}
use choix.Base.Int.{ℤ}
use choix.Base.Paths.{slash}
use mathlib.Core.List.{List}

pub record Content : Type 0 where
  pub mtime : ℤ
  pub bytes : List ℕ

-- The entries of a folder in the order in which WalkDir visits them.
mutual
  pub data Entry : Type 0 where
    file : String → Content → Entry
    folder : String → Entries → Entry

  pub data Entries : Type 0 where
    none_left : Entries
    next : Entry → Entries → Entries

-- The path of an entry relative to the scan root, from the one of its folder.
abbrev pub child : String → String → String
child rel name = if str_eq rel "." then name else rel ++ String.◌∷◌ slash name
