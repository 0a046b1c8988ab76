-- ===== src/Scanner/Formats.antt =====
-- internal/scanner/format.go: media files by their extension.
use Prim.Native.String.{String}
use text.Mathlib.Text.{◌==◌ as str_eq}
use choix.Base.{Option, some, none, List, [], ◌∷◌, if◌then◌else◌}
use choix.Base.Paths.{ext}

pub record FormatInfo : Type 0 where
  pub kind : String
  pub format : String

abbrev pub photo : String → FormatInfo
photo format = record { kind = "photo"; format = format }

abbrev pub video : String → FormatInfo
video format = record { kind = "video"; format = format }

abbrev pub ext_table : List (String × FormatInfo)
ext_table =
    (".raf", photo "raf")
    ∷ (".dng", photo "raf")
    ∷ (".heic", photo "heic")
    ∷ (".heif", photo "heic")
    ∷ (".jpg", photo "jpeg")
    ∷ (".jpeg", photo "jpeg")
    ∷ (".tiff", photo "jpeg")
    ∷ (".tif", photo "jpeg")
    ∷ (".png", photo "png")
    ∷ (".mov", video "mov")
    ∷ (".mp4", video "mp4")
    ∷ (".m4v", video "mp4")
    ∷ []

unfoldable pub find_format : String → List (String × FormatInfo) → Option FormatInfo
find_format extension [] = none
find_format extension ((e, info) ∷ table) =
    if str_eq e extension then some info else find_format extension table

-- DetectFromExt; `go_lower` is strings.ToLower.
unfoldable pub detect_from_ext : (String → String) → String → Option FormatInfo
unfolding ext find_format
detect_from_ext go_lower name =
    let extension = go_lower (ext name) in
    if str_eq extension "" then none else find_format extension ext_table
