-- ===== src/Dict.antt =====
-- Python's `dict` and `OrderedDict` with texts as keys, in insertion order.
use mathlib.Core.Path.{subst}
use jaros_code.Prelude.{
  suc, String, ◌≡◌, refl, ap, false, Option, none, some, List, [], ◌∷◌, ◌++◌, map, arith, length,
  str_eq, eq_iff, inl, inr, Bool-cases, if◌then◌else◌,
}

abbrev pub Dict {ℓ} : Type ℓ → Type ℓ
Dict A = List (String × A)

module _ {ℓ} {A : Type ℓ} where
  -- `d.get(key)`
  unfoldable pub lookup : Dict A → String → Option A
  lookup [] k = none
  lookup ((j, a) ∷ d) k = if str_eq j k then some a else lookup d k

  -- `d[key] = value`: an existing key keeps its place.
  unfoldable pub assign : Dict A → String → A → Dict A
  assign [] k b = (k, b) ∷ []
  assign ((j, a) ∷ d) k b =
      let rest = assign d k b in if str_eq j k then (j, b) ∷ d else (j, a) ∷ rest

  -- `del d[key]`
  unfoldable pub remove : Dict A → String → Dict A
  remove [] k = []
  remove ((j, a) ∷ d) k = let rest = remove d k in if str_eq j k then rest else (j, a) ∷ rest

  -- `d.update(e)`
  unfoldable pub update : Dict A → Dict A → Dict A
  update d [] = d
  update d ((k, a) ∷ e) = update (assign d k a) e

  abbrev pub keys : Dict A → List String
  keys d = map (λ entry. entry.0) d

  -- A key stands nowhere in a dict.
  abbrev pub IsFresh : String → Dict A → Type ℓ
  IsFresh k [] = Unit
  IsFresh k ((j, a) ∷ d) = (str_eq j k ≡ false) × IsFresh k d

  -- Each key stands once.
  abbrev pub IsDict : Dict A → Type ℓ
  IsDict [] = Unit
  IsDict ((j, a) ∷ d) = IsFresh j d × IsDict d

  pub lookup-assign :
      (d : Dict A) (k j : String) (b : A)
      → lookup (assign d k b) j ≡ (if str_eq k j then some b else lookup d j)
  unfolding lookup assign
  lookup-assign [] k j b = refl
  lookup-assign ((i, a) ∷ d) k j b =
      ground (arith, eq_iff i k, eq_iff i j, eq_iff k j, lookup-assign d k j b)

  pub lookup-remove :
      (d : Dict A) (k j : String)
      → lookup (remove d k) j ≡ (if str_eq k j then none else lookup d j)
  unfolding lookup remove
  lookup-remove [] k j = ground arith
  lookup-remove ((i, a) ∷ d) k j =
      ground (arith, eq_iff i k, eq_iff i j, eq_iff k j, lookup-remove d k j)

  pub lookup-append :
      (d : Dict A) (k j : String) (b : A)
      → lookup d k ≡ none
      → lookup (d ++ (k, b) ∷ []) j ≡ (if str_eq k j then some b else lookup d j)
  unfolding lookup
  lookup-append [] k j b h = refl
  lookup-append ((i, a) ∷ d) k j b h =
      ground (arith, eq_iff i k, eq_iff i j, eq_iff k j, lookup-append d k j b)

  pub lookup-IsFresh : (d : Dict A) (k : String) → IsFresh k d → lookup d k ≡ none
  unfolding lookup
  lookup-IsFresh [] k h = refl
  lookup-IsFresh ((j, a) ∷ d) k h = rw h.0 (lookup-IsFresh d k h.1)

  pub lookup-none-IsFresh : (d : Dict A) (k : String) → lookup d k ≡ none → IsFresh k d
  unfolding lookup
  lookup-none-IsFresh [] k h = tt
  lookup-none-IsFresh ((j, a) ∷ d) k h = elim (Bool-cases (str_eq j k)) [
    | inl same ↦ absurd (ground arith)
    | inr other ↦ (other, lookup-none-IsFresh d k (ground arith))
  ]

  pub IsFresh-remove : (d : Dict A) (k j : String) → IsFresh k d → IsFresh k (remove d j)
  unfolding remove
  IsFresh-remove [] k j h = tt
  IsFresh-remove ((i, a) ∷ d) k j h = elim (Bool-cases (str_eq i j)) [
    | inl same ↦ rw same (IsFresh-remove d k j h.1)
    | inr other ↦ rw other (h.0, IsFresh-remove d k j h.1)
  ]

  pub IsFresh-remove_same : (d : Dict A) (k : String) → IsFresh k (remove d k)
  unfolding remove
  IsFresh-remove_same [] k = tt
  IsFresh-remove_same ((i, a) ∷ d) k = elim (Bool-cases (str_eq i k)) [
    | inl same ↦ rw same (IsFresh-remove_same d k)
    | inr other ↦ rw other (other, IsFresh-remove_same d k)
  ]

  pub remove-IsDict : (d : Dict A) (k : String) → IsDict d → IsDict (remove d k)
  unfolding remove
  remove-IsDict [] k h = tt
  remove-IsDict ((i, a) ∷ d) k h = elim (Bool-cases (str_eq i k)) [
    | inl same ↦ rw same (remove-IsDict d k h.1)
    | inr other ↦ rw other (IsFresh-remove d i k h.0, remove-IsDict d k h.1)
  ]

  IsFresh-append :
      (d : Dict A) (k j : String) (b : A)
      → IsFresh k d
      → str_eq j k ≡ false
      → IsFresh k (d ++ (j, b) ∷ [])
  IsFresh-append [] k j b h e = (e, tt)
  IsFresh-append ((i, a) ∷ d) k j b h e = (h.0, IsFresh-append d k j b h.1 e)

  pub append-IsDict :
      (d : Dict A) (k : String) (b : A) → IsDict d → IsFresh k d → IsDict (d ++ (k, b) ∷ [])
  append-IsDict [] k b h f = (tt, tt)
  append-IsDict ((i, a) ∷ d) k b h f =
      let e : str_eq k i ≡ false = ground (arith, eq_iff i k, eq_iff k i, f.0) in
      (IsFresh-append d i k b h.0 e, append-IsDict d k b h.1 f.1)

  remove_fresh : (d : Dict A) (k : String) → IsFresh k d → remove d k ≡ d
  unfolding remove
  remove_fresh [] k h = refl
  remove_fresh ((i, a) ∷ d) k h = rw h.0 (ap (λ l. (i, a) ∷ l) (remove_fresh d k h.1))

  -- Removing a key that is there takes one entry away.
  pub length-remove :
      (d : Dict A) (k : String) (a : A)
      → IsDict d
      → lookup d k ≡ some a
      → suc (length (remove d k)) ≡ length d
  unfolding lookup remove
  length-remove [] k a h e = absurd (cc)
  length-remove ((i, b) ∷ d) k a h e = elim (Bool-cases (str_eq i k)) [
    | inl same ↦ rw same (
        ap (λ l. suc (length l))
          (remove_fresh d k (subst (λ j. IsFresh j d) ((eq_iff i k).0 same) h.0)))
    | inr other ↦ rw other (ap suc (length-remove d k a h.1 (ground arith)))
  ]
