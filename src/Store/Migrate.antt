-- ===== src/Store/Migrate.antt =====
-- internal/store/migrate.go: the migrations are applied in the order of their versions, each in a
-- transaction of its own.
use Prim.Native.String.{String}
use Prim.Native.String.{compare as compare_text}
use text.Mathlib.Text.{is_lt}
use choix.Base.{
  ℕ, ◌≤◌, ◌<◌, Option, some, none, List, [], ◌∷◌, if◌then◌else◌, Bool, true, false, leb, ◌≡◌, refl,
  subst, arith, Bool-cases, inl, inr, ◌⊎◌, leb→le, le→leb,
}
use choix.Base.Sort.{sort_by}

-- The database: `PRAGMA user_version`, and the rest, which the scripts change.
pub record Database (S : Type 0) : Type 0 where
  pub user_version : ℕ
  pub schema : S

-- `version_of` is the number that Sscanf reads from a name, `script` what the body of a migration
-- does, with `none` for any error of reading, running or committing it.
module _ {S : Type 0} (version_of : String → Option ℕ) (script : String → S → Option S) where
  abbrev pub apply_script : Database S → ℕ → Option S → Option (Database S)
  apply_script db v none = none
  apply_script db v (some s) = some (record { user_version = v; schema = s })

  -- One round of the loop; `current` is the version that was read before it.
  abbrev pub round : ℕ → String → Option ℕ → Database S → Option (Database S)
  round current name none db = none
  round current name (some v) db =
      if leb v current then some db else apply_script db v (script name db.schema)

  -- `false` is an error; what was committed before it stays.
  abbrev pub continue :
      Database S → Option (Database S) → (Database S → Bool × Database S) → Bool × Database S
  continue db none rest = (false, db)
  continue db (some u) rest = rest u

  unfoldable pub run_migrations : ℕ → List String → Database S → Bool × Database S
  run_migrations current [] db = (true, db)
  run_migrations current (name ∷ names) db =
      continue db (round current name (version_of name) db) (run_migrations current names)

  abbrev pub name_less : String → String → Bool
  name_less a b = is_lt (compare_text a b)

  unfoldable pub migrate : List String → Database S → Bool × Database S
  unfolding run_migrations
  migrate names db = run_migrations db.user_version (sort_by name_less names) db

  -- The versions grow along the list, and all are above `low`.
  abbrev pub Ascending : ℕ → List String → Type 0
  Ascending low [] = Unit
  Ascending low (name ∷ names) =
      (v : ℕ) × (version_of name ≡ some v) × (low < v) × Ascending v names

  -- Every version is at most this one.
  abbrev pub AllUpTo : ℕ → List String → Type 0
  AllUpTo top [] = Unit
  AllUpTo top (name ∷ names) = (v : ℕ) × (version_of name ≡ some v) × (v ≤ top) × AllUpTo top names

  -- A run that ends well never lowers the version, and leaves it at or above all of the list.
  abbrev pub Reached : Database S → List String → Bool × Database S → Type 0
  Reached db names (false, u) = Unit
  Reached db names (true, u) = (db.user_version ≤ u.user_version) × AllUpTo u.user_version names

  extend :
      (db d : Database S) (name : String) (v : ℕ) (names : List String) (r : Bool × Database S)
      → version_of name ≡ some v
      → db.user_version ≤ d.user_version
      → v ≤ d.user_version
      → Reached d names r
      → Reached db (name ∷ names) r
  extend db d name v names (false, u) q l k h = tt
  extend db d name v names (true, u) q l k h =
      (omega (arith, l, h.0), (v, q, omega (arith, k, h.0), h.1))

  run-Reached :
      (current low : ℕ) (names : List String) (db : Database S)
      → Ascending low names
      → current ≤ db.user_version
      → (db.user_version ≤ current) ⊎ (db.user_version ≤ low)
      → Reached db names (run_migrations current names db)
  unfolding run_migrations
  run-Reached current low [] db a c b = (omega arith, tt)
  run-Reached current low (name ∷ names) db (v, q, l, a) c b =
      rw q (elim (Bool-cases (leb v current)) [
        | inl t ↦
            let le = leb→le v current t in
            rw t (
              extend db db name v names (run_migrations current names db) q (omega arith)
                (omega (arith, le, c))
                (run-Reached current v names db a c
                  (elim b [ inl k ↦ inl k | inr k ↦ inr (omega (arith, k, l)) ])))
        | inr t ↦
            rw t (
              applied (script name db.schema) t
                (λ d x y. run-Reached current v names d a x (inr y)))
      ])
    where
      below : leb v current ≡ false → current < v
      below t = ground (arith, t)

      above : leb v current ≡ false → db.user_version ≤ v
      above t =
          let k = below t in elim b [ inl h ↦ omega (arith, h, k) | inr h ↦ omega (arith, h, l) ]

      applied :
          (o : Option S)
          → leb v current ≡ false
          → ((d : Database S)
              → current ≤ d.user_version
              → d.user_version ≤ v
              → Reached d names (run_migrations current names d))
          → Reached db
              (name ∷ names)
              (continue db (apply_script db v o) (run_migrations current names))
      applied none t ih = tt
      applied (some s) t ih =
          let d : Database S = record { user_version = v; schema = s } in
          let k = below t in
          extend db d name v names (run_migrations current names d) q (above t) (omega arith)
            (ih d (omega (arith, k)) (omega arith))

  skipped :
      (names : List String) (db : Database S)
      → AllUpTo db.user_version names
      → run_migrations db.user_version names db ≡ (true, db)
  unfolding run_migrations
  skipped [] db h = refl
  skipped (name ∷ names) db (v, q, l, h) = rw (q, le→leb v db.user_version l) (skipped names db h)

  -- When the migrations have run with no error, the version is not lower than before, and running
  -- them again changes nothing. The versions grow in the order of the names, and are not zero.
  pub migrate-again :
      (names : List String) (db u : Database S)
      → Ascending 0 (sort_by name_less names)
      → migrate names db ≡ (true, u)
      → (db.user_version ≤ u.user_version) × (migrate names u ≡ (true, u))
  unfolding migrate
  migrate-again names db u a h =
      let sorted = sort_by name_less names in
      let r =
        subst (Reached db sorted) h
          (run-Reached db.user_version 0 sorted db a (omega arith) (inl (omega arith))) in
      (r.0, skipped sorted u r.1)
