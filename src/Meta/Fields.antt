-- ===== src/Meta/Fields.antt =====
-- internal/meta/captured.go and device.go: what the metadata of a file says of its time and device.
use Prim.Native.Char.{Char, code}
use Prim.Native.String.{String, ◌++◌}
use text.Mathlib.Text.{◌==◌ as str_eq}
use choix.Base.{ℕ, Option, some, none, if◌then◌else◌, Bool, ◌==◌, ◌||◌, ◌&&◌, leb}
use choix.Base.Int.{ℤ}

-- A parsed record, without its floating-point fields; a zero time is `none`, any other its Unix
-- seconds.
pub record Metadata : Type 0 where
  pub make : String
  pub model : String
  pub serial_number : String
  pub date_time_original : Option ℤ
  pub create_date : Option ℤ
  pub modify_date : Option ℤ
  pub width : ℕ
  pub height : ℕ
  pub iso : ℕ
  pub shutter : String

abbrev pub first_of : Option ℤ → Option ℤ → Option ℤ
first_of (some t) later = some t
first_of none later = later

-- Captured; `none` is (0, false).
unfoldable pub captured : Metadata → Option ℤ
captured m = first_of m.date_time_original (first_of m.create_date m.modify_date)

-- unicode.IsSpace, by the number of the character.
abbrev pub is_space : ℕ → Bool
is_space n =
    (leb 9 n && leb n 13)
    || (n == 32
        || (n == 133
            || (n == 160
                || (n == 5760
                    || ((leb 8192 n && leb n 8202)
                        || (n == 8232
                            || (n == 8233 || (n == 8239 || (n == 8287 || n == 12288)))))))))

unfoldable pub trim_left : String → String
trim_left String.[] = String.[]
trim_left (String.◌∷◌ c cs) =
    let rest = trim_left cs in if is_space (code c) then rest else String.◌∷◌ c cs

abbrev pub before_end : Char → String → String
before_end c String.[] = if is_space (code c) then String.[] else String.◌∷◌ c String.[]
before_end c (String.◌∷◌ d cs) = String.◌∷◌ c (String.◌∷◌ d cs)

unfoldable pub trim_right : String → String
trim_right String.[] = String.[]
trim_right (String.◌∷◌ c cs) = before_end c (trim_right cs)

-- strings.TrimSpace.
unfoldable pub trim_space : String → String
unfolding trim_left trim_right
trim_space s = trim_right (trim_left s)

-- DeviceKey.
unfoldable pub device_key : Metadata → String
unfolding trim_space
device_key m =
    let make = trim_space m.make in
    let model = trim_space m.model in
    if str_eq make "" || str_eq model ""
    then "Unknown"
    else make ++ (" " ++ (model ++ ("#" ++ trim_space m.serial_number)))
