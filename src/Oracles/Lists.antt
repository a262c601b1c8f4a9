-- ===== src/Oracles/Lists.antt =====
-- `all(...)` and the truth of a list, for the specs of the oracles.
use jaros_code.Prelude.{Bool, true, false, ◌&&◌, List, [], ◌∷◌}

abbrev pub all_of {ℓ} : {A : Type ℓ} → (A → Bool) → List A → Bool
all_of p [] = true
all_of p (x ∷ xs) = p x && all_of p xs

abbrev pub is_empty_list {ℓ} : {A : Type ℓ} → List A → Bool
is_empty_list [] = true
is_empty_list (x ∷ xs) = false
