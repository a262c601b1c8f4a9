-- ===== src/Lines/Joining.antt =====
-- Joining lines one at a time.
use Prim.Native.Char.{Char, code}
use Prim.Native.String.{[] as nil, ◌∷◌ as cons}
use jaros_code.Prelude.{
  String, ◌≡◌, refl, Bool, true, false, List, [], ◌∷◌, ◌++◌, map, arith, ◌==◌, inl, inr, Bool-cases,
}
use jaros_code.Text.{◌<>◌}
use jaros_code.Text.Searching.{append_assoc_text}
use jaros_code.Lines.{split, join, push}

join-append :
    (l : String) (ls : List String) (t : String)
    → join ((l ∷ ls) ++ (t ∷ [])) ≡ join (l ∷ ls) <> ("\n" <> t)
unfolding join
join-append l [] t = refl
join-append l (m ∷ ls) t =
    rw
      (
        join-append m ls t,
        append_assoc_text l ("\n" <> join (m ∷ ls)) ("\n" <> t),
        append_assoc_text "\n" (join (m ∷ ls)) ("\n" <> t),
      )
      refl

abbrev pub is_cons : List String → Bool
is_cons [] = false
is_cons (l ∷ ls) = true

push-cons : (c : Char) (ls : List String) → is_cons (push c ls) ≡ true
push-cons c [] = refl
push-cons c (l ∷ ls) = refl

pub split-cons : (s : String) → is_cons (split s) ≡ true
unfolding split
split-cons nil = refl
split-cons (cons c s) = elim (Bool-cases (code c == 10)) [
  | inl break ↦ rw break refl
  | inr other ↦ rw other (push-cons c (split s))
]

pub join-append_map :
    (f : String → String) (ls : List String) (t : String)
    → is_cons ls ≡ true
    → join (map f ls ++ (t ∷ [])) ≡ join (map f ls) <> ("\n" <> t)
join-append_map f [] t h = ground (arith, h)
join-append_map f (l ∷ ls) t h = join-append (f l) (map f ls) t

pub join-cons :
    (l : String) (ls : List String) → is_cons ls ≡ true → join (l ∷ ls) ≡ l <> ("\n" <> join ls)
unfolding join
join-cons l [] h = ground (arith, h)
join-cons l (m ∷ ls) h = refl

pub is_cons-append : (ls : List String) (t : String) → is_cons (ls ++ (t ∷ [])) ≡ true
is_cons-append [] t = refl
is_cons-append (l ∷ ls) t = refl
