-- ===== src/Prelude/Permutations.antt =====
-- Permutations of lists.
use mathlib.Core.Path.{subst}
use mathlib.Core.List.{List, Permᴰ}
use jaros_code.Prelude.Lists.{All}

-- What holds of all elements of a list holds of all elements of a permutation of it.
pub All-Permᴰ {ℓ κ} :
    {A : Type ℓ} (P : A → Type κ) {xs ys : List A} → Permᴰ xs ys → All P xs → All P ys
All-Permᴰ P Permᴰ.nil h = tt
All-Permᴰ P (Permᴰ.cons e p) h = (subst P e h.0, All-Permᴰ P p h.1)
All-Permᴰ P (Permᴰ.swap e f) h = (subst P f h.1.0, (subst P e h.0, h.1.1))
All-Permᴰ P (Permᴰ.trans p q) h = All-Permᴰ P q (All-Permᴰ P p h)
