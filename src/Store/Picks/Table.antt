-- ===== src/Store/Picks/Table.antt =====
-- The picks table reads back what was written, one row for each file.
use choix.Base.{ℕ, Option, some, none, List, [], ◌∷◌, ◌≡◌, refl, arith, ◌≢◌}
use choix.Store.Picks.{Pick, get, put, change_row, delete}

abbrev pub on_some : (Pick → Pick) → Option Pick → Option Pick
on_some change none = none
on_some change (some p) = some (change p)

abbrev pub or_fresh : (Pick → Pick) → Pick → Option Pick → Option Pick
or_fresh change fresh none = some fresh
or_fresh change fresh (some p) = some (change p)

-- A row keeps its key when a column changes.
abbrev pub KeepsKey : (Pick → Pick) → Type 0
KeepsKey change = (p : Pick) → (change p).file_id ≡ p.file_id

pub get-put :
    (id : ℕ) (change : Pick → Pick) (fresh : Pick) (rows : List Pick)
    → KeepsKey change
    → fresh.file_id ≡ id
    → get id (put id change fresh rows) ≡ or_fresh change fresh (get id rows)
unfolding get put
get-put id change fresh [] k f = ground (arith, f)
get-put id change fresh (row ∷ rows) k f =
    ground (arith, f, k row, get-put id change fresh rows k f)

pub get-put_other :
    (id j : ℕ) (change : Pick → Pick) (fresh : Pick) (rows : List Pick)
    → KeepsKey change
    → fresh.file_id ≡ id
    → j ≢ id
    → get j (put id change fresh rows) ≡ get j rows
unfolding get put
get-put_other id j change fresh [] k f n = ground (arith, f)
get-put_other id j change fresh (row ∷ rows) k f n =
    ground (arith, f, k row, get-put_other id j change fresh rows k f n)

pub get-change_row :
    (id : ℕ) (change : Pick → Pick) (rows : List Pick)
    → KeepsKey change
    → get id (change_row id change rows) ≡ on_some change (get id rows)
unfolding get change_row
get-change_row id change [] k = refl
get-change_row id change (row ∷ rows) k = ground (arith, k row, get-change_row id change rows k)

pub get-change_row_other :
    (id j : ℕ) (change : Pick → Pick) (rows : List Pick)
    → KeepsKey change
    → j ≢ id
    → get j (change_row id change rows) ≡ get j rows
unfolding get change_row
get-change_row_other id j change [] k n = refl
get-change_row_other id j change (row ∷ rows) k n =
    ground (arith, k row, get-change_row_other id j change rows k n)

pub get-delete : (id : ℕ) (rows : List Pick) → get id (delete id rows) ≡ none
unfolding get delete
get-delete id [] = refl
get-delete id (row ∷ rows) = ground (arith, get-delete id rows)

pub get-delete_other : (id j : ℕ) (rows : List Pick) → j ≢ id → get j (delete id rows) ≡ get j rows
unfolding get delete
get-delete_other id j [] n = refl
get-delete_other id j (row ∷ rows) n = ground (arith, get-delete_other id j rows n)
