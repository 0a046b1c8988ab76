-- ===== src/Store/FilesRepo/Queue.antt =====
-- The queue of a stage: CountByStatus and ListByStatus agree.
use Prim.Native.String.{String}
use choix.Base.{ℕ, zero, suc, ◌≤◌, List, [], ◌∷◌, length, ◌≡◌, arith, ltb, if◌then◌else◌, ◌↔◌}
use choix.Base.Sort.{length-sort_by}
use choix.Store.Files.{File}
use choix.Store.FilesRepo.{at_status, count_by_status, list_by_status, take, sort_files}

abbrev pub min : ℕ → ℕ → ℕ
min a b = if ltb a b then a else b

length-take : {A : Type 0} (n : ℕ) (xs : List A) → length (take n xs) ≡ min n (length xs)
length-take zero xs = ground arith
length-take (suc n) [] = ground arith
length-take (suc n) (x ∷ xs) = ground (arith, length-take n xs)

-- A batch holds as many files as the limit allows and the queue has: none is lost, and the batch
-- is empty, for a limit that is not zero, exactly when the queue counts no file.
pub list_by_status-count :
    (status : String) (limit : ℕ) (t : List File)
    → (length (list_by_status status limit t) ≡ min limit (count_by_status status t))
      × (1 ≤ limit → (length (list_by_status status limit t) ≡ 0) ↔ (count_by_status status t ≡ 0))
unfolding list_by_status count_by_status
list_by_status-count status limit t =
    let rows = at_status status t in
    let e = length-take limit (sort_files rows) in
    let s = length-sort_by (λ f g. ltb f.id g.id) rows in
    (ground (arith, e, s), λ h. (λ q. ground (arith, e, s), λ q. ground (arith, e, s)))
