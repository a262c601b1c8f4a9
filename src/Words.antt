-- ===== src/Words.antt =====
-- `text.split()`: the runs of characters that are no white space.
use Prim.Native.Char.{Char, code}
use Prim.Native.String.{[] as nil, ◌∷◌ as cons}
use Prim.Native.String.append
use jaros_code.Prelude.{
  String, ◌≡◌, refl, ap, sym, ◌∙◌, Bool, true, false, not, ◌&&◌, List, [], ◌∷◌, arith,
  if◌then◌else◌,
}
use jaros_code.Text.{◌<>◌, is_space}

abbrev pub onto : Char → List String → List String
onto c [] = cons c nil ∷ []
onto c (w ∷ ws) = cons c w ∷ ws

abbrev ends_word : String → Bool
ends_word nil = true
ends_word (cons c s) = is_space (code c)

unfoldable pub words : String → List String
words nil = []
words (cons c s) =
    let rest = words s in
    if is_space (code c) then rest else if ends_word s then cons c nil ∷ rest else onto c rest

abbrev all_solid : String → Bool
all_solid nil = true
all_solid (cons c s) = not (is_space (code c)) && all_solid s

-- A text that is one word
abbrev pub is_word : String → Bool
is_word nil = false
is_word (cons c s) = not (is_space (code c)) && all_solid s

words-onto :
    (c : Char) (s : String)
    → is_space (code c) ≡ false
    → ends_word s ≡ false
    → words (cons c s) ≡ onto c (words s)
unfolding words
words-onto c s solid more = rw (solid, more) refl

words-last :
    (c : Char) (s : String)
    → is_space (code c) ≡ false
    → ends_word s ≡ true
    → words (cons c s) ≡ cons c nil ∷ words s
unfolding words
words-last c s solid end = rw (solid, end) refl

words-solid :
    (c : Char) (s rest : String)
    → is_word (cons c s) ≡ true
    → ends_word rest ≡ true
    → words (cons c s <> rest) ≡ cons c s ∷ words rest
words-solid c nil rest h end =
    rw (append.cons c nil rest, append.nil rest) (words-last c rest (ground (arith, h)) end)
words-solid c (cons d s) rest h end =
    ap words (append.cons c (cons d s) rest)
    ∙ words-onto c (cons d s <> rest) (ground (arith, h))
        (ap ends_word (append.cons d s rest) ∙ ground (arith, h))
    ∙ ap (onto c) (words-solid d s rest (ground (arith, h)) end)

words-space : (rest : String) → words (" " <> rest) ≡ words rest
unfolding words is_space
words-space rest = rw (append.cons " " "" rest, append.nil rest) refl

-- A word before a space is the first one
pub words-cons : (w rest : String) → is_word w ≡ true → words (w <> (" " <> rest)) ≡ w ∷ words rest
unfolding is_space
words-cons nil rest h = ground (arith, h)
words-cons (cons c s) rest h =
    words-solid c s (" " <> rest) h (rw (append.cons " " "" rest) refl)
    ∙ ap (λ ws. cons c s ∷ ws) (words-space rest)

append-empty : (s : String) → s <> nil ≡ s
append-empty nil = append.nil nil
append-empty (cons c s) = rw (append.cons c s nil, append-empty s) refl

pub words-word : (w : String) → is_word w ≡ true → words w ≡ w ∷ []
unfolding words
words-word nil h = ground (arith, h)
words-word (cons c s) h = ap words (sym (append-empty (cons c s))) ∙ words-solid c s nil h refl
