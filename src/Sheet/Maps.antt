-- ===== src/Sheet/Maps.antt =====
-- Go's maps as association lists in which each key stands once. A loop over a map reads the list
-- from its head.
use etherpad_go.Prelude.{Bool, Option, none, some, List, [], ◌∷◌, if◌then◌else◌}

module _ {ℓ κ} {K : Type ℓ} {V : Type κ} (eq : K → K → Bool) where
  unfoldable pub lookup : K → List (K × V) → Option V
  lookup k [] = none
  lookup k ((k', v) ∷ m) = if eq k k' then some v else lookup k m

  unfoldable pub erase : K → List (K × V) → List (K × V)
  erase k [] = []
  erase k ((k', v) ∷ m) = if eq k k' then erase k m else (k', v) ∷ erase k m

  abbrev pub put : K → V → List (K × V) → List (K × V)
  put k v m = (k, v) ∷ erase k m

-- The entries that a test drops are deleted in a loop over the map.
unfoldable pub delete_where {ℓ κ} :
    {K : Type ℓ} {V : Type κ} → (K → V → Bool) → List (K × V) → List (K × V)
delete_where t [] = []
delete_where t ((k, v) ∷ m) = if t k v then delete_where t m else (k, v) ∷ delete_where t m
