-- ===== src/Scanner/Hash/Windows.antt =====
-- Which bytes of a file its content hash sees.
use choix.Base.{ℕ, List, [], ◌++◌, length, ◌≡◌, ◌⊎◌}

-- The content is `head`, `middle` and `tail`; the hash sees `head` and `tail`, and only the middle of
-- a file with two whole windows around it is left out.
pub record Windows (w : ℕ) (bytes seen : List ℕ) : Type 0 where
  pub head : List ℕ
  pub middle : List ℕ
  pub tail : List ℕ
  pub whole : bytes ≡ head ++ (middle ++ tail)
  pub hashed : seen ≡ head ++ tail
  pub full : (middle ≡ []) ⊎ ((length head ≡ w) × (length tail ≡ w))
