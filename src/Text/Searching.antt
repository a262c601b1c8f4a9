-- ===== src/Text/Searching.antt =====
-- `startswith`, `in` and `+` of strings together.
use Prim.Native.String.{[] as nil, ◌∷◌ as cons}
use Prim.Native.String.append
use jaros_code.Prelude.{String, ◌≡◌, refl, Bool, true, false, ◌||◌, arith}
use jaros_code.Text.{◌<>◌, starts_with, contains}

pub starts_with-append : (p s : String) → starts_with (p <> s) p ≡ true
unfolding starts_with
starts_with-append nil s = refl
starts_with-append (cons c p) s = rw (append.cons c p s) (ground (arith, starts_with-append p s))

starts_with-nil : (s : String) → starts_with s nil ≡ true
unfolding starts_with
starts_with-nil nil = refl
starts_with-nil (cons c s) = refl

starts_with_self : (s : String) → starts_with s s ≡ true
unfolding starts_with
starts_with_self nil = refl
starts_with_self (cons c s) = ground (arith, starts_with_self s)

pub contains_self : (s : String) → contains s s ≡ true
unfolding contains
contains_self nil = refl
contains_self (cons c s) = rw (starts_with_self (cons c s)) refl

or_true : (b : Bool) → (b || true) ≡ true
or_true true = refl
or_true false = refl

pub contains-append : (s t u : String) → contains t u ≡ true → contains (s <> t) u ≡ true
unfolding contains
contains-append nil t u h = rw (append.nil t) h
contains-append (cons c s) t u h = rw (append.cons c s t, contains-append s t u h) (or_true _)

pub starts_with-longer : (s t p : String) → starts_with s p ≡ true → starts_with (s <> t) p ≡ true
unfolding starts_with
starts_with-longer s t nil h = starts_with-nil (s <> t)
starts_with-longer nil t (cons d p) h = ground (arith, h)
starts_with-longer (cons c s) t (cons d p) h =
    rw (append.cons c s t) (ground (arith, h, starts_with-longer s t p))

pub append_assoc_text : (s t u : String) → ((s <> t) <> u) ≡ s <> (t <> u)
append_assoc_text nil t u = rw (append.nil t, append.nil (t <> u)) refl
append_assoc_text (cons c s) t u =
    rw
      (
        append.cons c s t,
        append.cons c (s <> t) u,
        append.cons c s (t <> u),
        append_assoc_text s t u,
      )
      refl
