-- ===== src/Picks/Service/Rows.antt =====
-- The rows of the picks table under the statements of the service: the row of one file, and the
-- rows of all others.
use Prim.Native.String.{String}
use text.Mathlib.TextPositions.{eq_refl}
use choix.Base.{ℕ, Option, some, none, List, true, ◌≡◌, ◌≢◌, refl, sym, ap, ◌∙◌, subst}
use choix.Base.Int.{ℤ}
use choix.Store.Picks.{Pick, get, set_state, delete, change_row, new_pick}
use choix.Store.Picks.Table.{
  get-put, get-put_other, get-change_row, get-change_row_other, get-delete_other, on_some, or_fresh,
}
use choix.Picks.Service.{is_state}

-- Marking a file, whatever row it had.
pub is_state-set_state :
    (now : ℤ) (id : ℕ) (state : String) (rows : List Pick)
    → is_state state (get id (set_state now id state rows)) ≡ true
is_state-set_state now id state rows =
    subst (λ o. is_state state o ≡ true)
      (sym (
        get-put id (λ r. record r { state = state }) (new_pick now id state) rows (λ p. refl) refl))
      (go (get id rows))
  where
    go :
        (o : Option Pick)
        → is_state state (or_fresh (λ r. record r { state = state }) (new_pick now id state) o)
          ≡ true
    go none = eq_refl state
    go (some p) = eq_refl state

-- The path of the copy does not matter to the state.
pub is_state-change_row :
    (id : ℕ) (path : Option String) (state : String) (rows : List Pick)
    → is_state state (get id (change_row id (λ r. record r { exported_path = path }) rows))
      ≡ is_state state (get id rows)
is_state-change_row id path state rows =
    ap (is_state state)
      (get-change_row id (λ r. record r { exported_path = path }) rows (λ p. refl))
    ∙ go (get id rows)
  where
    go :
        (o : Option Pick)
        → is_state state (on_some (λ r. record r { exported_path = path }) o) ≡ is_state state o
    go none = refl
    go (some p) = refl

-- The rows of the other files are as they were.
abbrev pub SameOthers : ℕ → List Pick → List Pick → Type 0
SameOthers id rows rows' = (j : ℕ) → j ≢ id → get j rows' ≡ get j rows

pub set_state-SameOthers :
    (now : ℤ) (id : ℕ) (state : String) (rows : List Pick)
    → SameOthers id rows (set_state now id state rows)
set_state-SameOthers now id state rows j n =
    get-put_other id j (λ r. record r { state = state }) (new_pick now id state) rows (λ p. refl)
      refl n

pub path-SameOthers :
    (id : ℕ) (path : Option String) (rows : List Pick)
    → SameOthers id rows (change_row id (λ r. record r { exported_path = path }) rows)
path-SameOthers id path rows j n =
    get-change_row_other id j (λ r. record r { exported_path = path }) rows (λ p. refl) n

pub delete-SameOthers : (id : ℕ) (rows : List Pick) → SameOthers id rows (delete id rows)
delete-SameOthers id rows j n = get-delete_other id j rows n

pub SameOthers-trans :
    (id : ℕ) (a b c : List Pick) → SameOthers id a b → SameOthers id b c → SameOthers id a c
SameOthers-trans id a b c h k j n = k j n ∙ h j n
