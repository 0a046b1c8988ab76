-- ===== src/Store/Files.antt =====
-- internal/store/files.go: rows of the files table.
use Prim.Native.String.{String}
use choix.Base.{ℕ, Option}
use choix.Base.Int.{ℤ}

-- NULL columns are `none`. The floating-point and blob columns (aperture, focal_length, gps_lat,
-- gps_lon, raw_exif) are left out: nothing modelled here reads them.
pub record File : Type 0 where
  pub id : ℕ
  pub path : String
  pub size : ℕ
  pub mtime : ℤ
  pub content_hash : String
  pub kind : String
  pub format : String
  pub device_key : Option String
  pub captured_at : Option ℤ
  pub width : Option ℕ
  pub height : Option ℕ
  pub iso : Option ℕ
  pub shutter : Option String
  pub scan_status : String
  pub err_msg : Option String
