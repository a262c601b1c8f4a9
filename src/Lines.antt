-- ===== src/Lines.antt =====
-- `text.split("\n")` and `"\n".join(lines)`.
pub mod Joining
use Prim.Native.Char.{Char, code}
use Prim.Native.String.{[] as nil, ◌∷◌ as cons}
use Prim.Native.String.append
use jaros_code.Prelude.{
  String, ◌≡◌, refl, ap, ◌∙◌, Bool, true, false, not, ◌&&◌, List, [], ◌∷◌, arith, ◌==◌, inl, inr,
  Bool-cases, if◌then◌else◌, All,
}
use jaros_code.Text.{◌<>◌}

abbrev pub push : Char → List String → List String
push c [] = cons c nil ∷ []
push c (l ∷ ls) = cons c l ∷ ls

unfoldable pub split : String → List String
split nil = nil ∷ []
split (cons c s) = let rest = split s in if code c == 10 then nil ∷ rest else push c rest

unfoldable pub join : List String → String
join [] = ""
join (l ∷ []) = l
join (l ∷ m ∷ ls) = l <> ("\n" <> join (m ∷ ls))

-- A text without a line break
unfoldable pub is_line : String → Bool
is_line nil = true
is_line (cons c s) = not (code c == 10) && is_line s

and_assoc : (a b c : Bool) → (a && (b && c)) ≡ ((a && b) && c)
and_assoc true b c = refl
and_assoc false b c = refl

pub is_line-append : (s t : String) → is_line (s <> t) ≡ (is_line s && is_line t)
unfolding is_line
is_line-append nil t = rw (append.nil t) refl
is_line-append (cons c s) t =
    rw (append.cons c s t, is_line-append s t)
      (and_assoc (not (code c == 10)) (is_line s) (is_line t))

split-line : (s : String) → is_line s ≡ true → split s ≡ s ∷ []
unfolding split is_line
split-line nil h = refl
split-line (cons c s) h = elim (Bool-cases (code c == 10)) [
  | inl break ↦ ground (arith, h, break)
  | inr other ↦ rw (other, split-line s (ground (arith, h, other))) refl
]

split-append : (s rest : String) → is_line s ≡ true → split (s <> ("\n" <> rest)) ≡ s ∷ split rest
unfolding split is_line
split-append nil rest h =
    rw (append.nil ("\n" <> rest), append.cons "\n" "" rest, append.nil rest) refl
split-append (cons c s) rest h = elim (Bool-cases (code c == 10)) [
  | inl break ↦ ground (arith, h, break)
  | inr other ↦
      rw (append.cons c s ("\n" <> rest), other, split-append s rest (ground (arith, h, other)))
        refl
]

-- Lines that are joined and split again are the lines.
pub split-join :
    (l : String) (ls : List String)
    → All (λ l. is_line l ≡ true) (l ∷ ls)
    → split (join (l ∷ ls)) ≡ l ∷ ls
unfolding join
split-join l [] h = split-line l h.0
split-join l (m ∷ ls) h =
    split-append l (join (m ∷ ls)) h.0 ∙ ap (λ rest. l ∷ rest) (split-join m ls h.1)

push-lines :
    (c : Char) (ls : List String)
    → (code c == 10) ≡ false
    → All (λ l. is_line l ≡ true) ls
    → All (λ l. is_line l ≡ true) (push c ls)
unfolding is_line
push-lines c [] other h = (rw other refl, tt)
push-lines c (l ∷ ls) other h = (rw (other, h.0) refl, h.1)

pub split-lines : (s : String) → All (λ l. is_line l ≡ true) (split s)
unfolding split is_line
split-lines nil = (refl, tt)
split-lines (cons c s) = elim (Bool-cases (code c == 10)) [
  | inl break ↦ rw break (refl, split-lines s)
  | inr other ↦ rw other (push-lines c (split s) other (split-lines s))
]
