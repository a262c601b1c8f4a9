-- ===== src/Oracles/After.antt =====
-- The name behind "entity." in a target, for the tests of the oracles.
use Prim.Native.String.{[], ◌∷◌}
use Prim.Native.String.append
use Prim.Native.Char.{code}
use jaros_code.Prelude.{
  ◌==◌, String, ◌≡◌, ap, ◌∙◌, sym, Bool, true, false, str_eq, eq_iff, inl, inr, arith, Bool-cases,
}
use mathlib.Core.Path.{subst}
use jaros_code.Text.{◌<>◌}
use jaros_code.Oracles.Names.{is_ident}

abbrev after : String → String → String
after [] s = s
after (c ∷ p) [] = []
after (c ∷ p) (d ∷ s) = after p s

after-append : (p s : String) → after p (p <> s) ≡ s
after-append [] s = append.nil s
after-append (c ∷ p) s = rw (append.cons c p s) (after-append p s)

abbrev pub after_prefix : String → String
after_prefix target = after "entity." target

pub after_prefix-append : (s : String) → after_prefix ("entity." <> s) ≡ s
after_prefix-append s = after-append "entity." s

-- No action that is an identifier is the property's getter.
pub getter_differs :
    (action : String)
    → is_ident action ≡ true
    → str_eq ("entity." <> action) "entity.__class__.state.fget" ≡ false
getter_differs action h =
    elim (Bool-cases (str_eq ("entity." <> action) "entity.__class__.state.fget")) [
      | inl same ↦
          let path =
            ap after_prefix ((eq_iff ("entity." <> action) "entity.__class__.state.fget").0 same) in
          let bad = subst (λ s. is_ident s ≡ true) (sym (after_prefix-append action) ∙ path) h in
          ground (arith, bad)
      | inr other ↦ other
    ]

abbrev is_e : String → Bool
is_e [] = false
is_e (c ∷ s) = code c == 101

-- No target of an action is the name of a class without a dot.
pub class_differs : (action : String) → str_eq ("entity." <> action) "Order" ≡ false
class_differs action = elim (Bool-cases (str_eq ("entity." <> action) "Order")) [
  | inl same ↦
      let path = (eq_iff ("entity." <> action) "Order").0 same in
      let bad = ap is_e (sym (append.cons "e" "ntity." action) ∙ path) in ground (arith, bad)
  | inr other ↦ other
]
