-- ===== src/Text.antt =====
-- The `str` methods that the harness calls: `strip`, `startswith`, truth of a string.
pub mod Searching
use Prim.Native.Char.{code}
use Prim.Native.String.{[], ◌∷◌}
use Prim.Native.String.{◌++◌ as append}
use Prim.Native.String.append
use jaros_code.Prelude.{
  zero, suc, ◌+◌, ◌≤◌, ℕ, String, ◌≡◌, refl, Bool, true, false, ◌&&◌, ◌||◌, arith, leb, ◌==◌,
  if◌then◌else◌, inl, inr, Bool-cases,
}

-- `s + t`
infixr 65 ◌<>◌
abbrev pub ◌<>◌ : String → String → String
s <> t = append s t

-- `str.isspace` of one character, by its code point.
unfoldable pub is_space : ℕ → Bool
is_space c =
    (leb 9 c && leb c 13)
    || (leb 28 c && leb c 32)
    || (c == 133)
    || (c == 160)
    || (c == 5760)
    || (leb 8192 c && leb c 8202)
    || (c == 8232)
    || (c == 8233)
    || (c == 8239)
    || (c == 8287)
    || (c == 12288)

-- `not s`
abbrev pub is_empty : String → Bool
is_empty [] = true
is_empty (c ∷ s) = false

unfoldable pub lstrip : String → String
lstrip [] = []
lstrip (c ∷ s) = elim (is_space (code c)) [ true ↦ lstrip s | false ↦ c ∷ s ]

unfoldable pub rstrip : String → String
rstrip [] = []
rstrip (c ∷ s) = let rest = rstrip s in if is_empty rest && is_space (code c) then [] else c ∷ rest

-- `s.strip()`
unfoldable pub strip : String → String
unfolding lstrip rstrip is_space
strip s = rstrip (lstrip s)

-- `not s.strip()`
abbrev pub is_blank : String → Bool
is_blank s = is_empty (strip s)

rstrip_idem : (s : String) → rstrip (rstrip s) ≡ rstrip s
unfolding rstrip
rstrip_idem [] = refl
rstrip_idem (c ∷ s) = ground (arith, rstrip_idem s)

-- What `lstrip` leaves is empty or begins with a character that is no space.
abbrev Begins : String → Type 0
Begins [] = Unit {0}
Begins (c ∷ s) = is_space (code c) ≡ false

lstrip-Begins : (s : String) → Begins (lstrip s)
unfolding lstrip
lstrip-Begins [] = tt
lstrip-Begins (c ∷ s) = elim (Bool-cases (is_space (code c))) [
  | inl space ↦ rw (space, Begins) (lstrip-Begins s)
  | inr other ↦ rw (other, Begins) other
]

lstrip_of_Begins : (s : String) → Begins s → lstrip s ≡ s
unfolding lstrip
lstrip_of_Begins [] h = refl
lstrip_of_Begins (c ∷ s) h = ground arith

and_false : (b : Bool) → (b && false) ≡ false
and_false true = refl
and_false false = refl

rstrip-Begins : (s : String) → Begins s → Begins (rstrip s)
unfolding rstrip
rstrip-Begins [] h = tt
rstrip-Begins (c ∷ s) h = rw (h, and_false) h

-- Stripping twice is stripping once.
pub strip_idem : (s : String) → strip (strip s) ≡ strip s
unfolding strip
strip_idem s =
    rw (lstrip_of_Begins (rstrip (lstrip s)) (rstrip-Begins (lstrip s) (lstrip-Begins s)))
      (rstrip_idem (lstrip s))

unfoldable pub starts_with : String → String → Bool
starts_with s [] = true
starts_with [] (d ∷ t) = false
starts_with (c ∷ s) (d ∷ t) = code c == code d && starts_with s t

-- `t in s`
unfoldable pub contains : String → String → Bool
unfolding starts_with
contains [] t = is_empty t
contains (c ∷ s) t = starts_with (c ∷ s) t || contains s t

-- `len(s)`
unfoldable pub size : String → ℕ
size [] = 0
size (c ∷ s) = suc (size s)

-- `s[:n]`
unfoldable pub first_n : ℕ → String → String
first_n zero s = []
first_n (suc n) [] = []
first_n (suc n) (c ∷ s) = c ∷ first_n n s

pub size-append : (s t : String) → size (s <> t) ≡ size s + size t
unfolding size
size-append [] t = rw (append.nil t) (omega arith)
size-append (c ∷ s) t = rw (append.cons c s t) (omega (arith, size-append s t))

pub size-first_n : (n : ℕ) (s : String) → size (first_n n s) ≤ n
unfolding size first_n
size-first_n zero s = ground arith
size-first_n (suc n) [] = ground arith
size-first_n (suc n) (c ∷ s) = omega (arith, size-first_n n s)
