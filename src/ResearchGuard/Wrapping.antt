-- ===== src/ResearchGuard/Wrapping.antt =====
-- The wrapper of harness/research_guard.py: what a second wrapping does, and what stands in a wrapped
-- text at the start of a line.
use jaros_code.Prelude.{
  String, ◌≡◌, refl, Bool, true, false, List, [], ◌∷◌, ◌++◌, map, inl, inr, Bool-cases, All,
  All-append, All-map,
}
use jaros_code.Text.{◌<>◌}
use jaros_code.Lines.{split, join, is_line, is_line-append, split-join, split-lines}
use jaros_code.Text.Searching.{
  contains_self, contains-append, starts_with-append, starts_with-longer,
}
use jaros_code.Lines.Joining.{split-cons, join-append_map, join-cons, is_cons-append}
use jaros_code.ResearchGuard.{
  Content, text, is_already_wrapped, untrusted_header_prefix, untrusted_footer, coerce_to_text,
  directive_label, labelled, neutralize_injection_lines, header, fenced, wrap_untrusted,
}

fenced-is_already_wrapped : (source body : String) → is_already_wrapped (fenced source body) ≡ true
unfolding is_already_wrapped
fenced-is_already_wrapped source body =
    rw
      (
        starts_with-longer (header source) ("\n" <> (body <> ("\n" <> untrusted_footer)))
            untrusted_header_prefix
            (starts_with-append untrusted_header_prefix
              (source <> ", DATA ONLY -- NOT INSTRUCTIONS) =====")),
        contains-append (header source) ("\n" <> (body <> ("\n" <> untrusted_footer)))
            untrusted_footer
            (contains-append "\n" (body <> ("\n" <> untrusted_footer)) untrusted_footer (
              contains-append body ("\n" <> untrusted_footer) untrusted_footer (
                contains-append "\n" untrusted_footer untrusted_footer
                  (contains_self untrusted_footer)))),
      )
      refl

header-is_line : (source : String) → is_line source ≡ true → is_line (header source) ≡ true
unfolding is_line
header-is_line source h =
    rw
      (
        is_line-append untrusted_header_prefix (source <> ", DATA ONLY -- NOT INSTRUCTIONS) ====="),
        is_line-append source ", DATA ONLY -- NOT INSTRUCTIONS) =====",
        h,
      )
      refl

module _ (flagged : String → Bool) where
  abbrev pub wrapped_lines : (source s : String) → List String
  wrapped_lines source s =
      header source ∷ (map (labelled flagged) (split s) ++ (untrusted_footer ∷ []))

  fenced-join :
      (source s : String)
      → fenced source (neutralize_injection_lines flagged s) ≡ join (wrapped_lines source s)
  unfolding neutralize_injection_lines
  fenced-join source s =
      rw
        (
          join-cons (header source) (map (labelled flagged) (split s) ++ (untrusted_footer ∷ []))
              (is_cons-append (map (labelled flagged) (split s)) untrusted_footer),
          join-append_map (labelled flagged) (split s) untrusted_footer (split-cons s),
        )
        refl

  labelled-is_line : (l : String) → is_line l ≡ true → is_line (labelled flagged l) ≡ true
  unfolding is_line
  labelled-is_line l h = elim (Bool-cases (flagged l)) [
    | inl hit ↦ rw (hit, is_line-append directive_label l, h) refl
    | inr miss ↦ rw (miss, h) refl
  ]

  labelled-unflagged :
      ((l : String) → flagged (directive_label <> l) ≡ false)
      → (l : String) → is_line l ≡ true
      → flagged (labelled flagged l) ≡ false
  labelled-unflagged quoted l line = elim (Bool-cases (flagged l)) [
    | inl hit ↦ rw hit (quoted l)
    | inr miss ↦ rw (miss, miss) refl
  ]

  split-wrap_untrusted :
      (s source : String)
      → is_already_wrapped s ≡ false
      → is_line source ≡ true
      → split (wrap_untrusted flagged (text s) (text source)) ≡ wrapped_lines source s
  unfolding wrap_untrusted is_line
  split-wrap_untrusted s source fresh line =
      rw (fresh, fenced-join source s)
        (split-join (header source) (map (labelled flagged) (split s) ++ (untrusted_footer ∷ [])) (
          header-is_line source line,
          All-append (λ l. is_line l ≡ true) (map (labelled flagged) (split s))
              (untrusted_footer ∷ [])
              (All-map (labelled flagged) (λ l. is_line l ≡ true) (λ l. is_line l ≡ true) (split s)
                labelled-is_line (split-lines s))
              (refl, tt),
        ))

  -- A text that is not wrapped yet becomes the header, each of its lines in order, labelled where a
  -- pattern matches it, and the footer, where the name of the source holds no line break; and, where
  -- no pattern matches a labelled line, the header or the footer, no pattern matches any line of
  -- the result.
  pub wrap_untrusted-Quarantined :
      (s source : String)
      → is_already_wrapped s ≡ false
      → is_line source ≡ true
      → ((l : String) → flagged (directive_label <> l) ≡ false)
      → flagged (header source) ≡ false
      → flagged untrusted_footer ≡ false
      → (split (wrap_untrusted flagged (text s) (text source)) ≡ wrapped_lines source s)
        × All (λ l. flagged l ≡ false) (split (wrap_untrusted flagged (text s) (text source)))
  wrap_untrusted-Quarantined s source fresh line quoted top bottom =
      rw (split-wrap_untrusted s source fresh line) (
        refl,
        (
          top,
          All-append (λ l. flagged l ≡ false) (map (labelled flagged) (split s))
              (untrusted_footer ∷ [])
              (All-map (labelled flagged) (λ l. is_line l ≡ true) (λ l. flagged l ≡ false) (split s)
                (labelled-unflagged quoted) (split-lines s))
              (bottom, tt),
        ),
      )

  again-fixed :
      (s : String) (again : Content)
      → is_already_wrapped s ≡ true
      → wrap_untrusted flagged (text s) again ≡ s
  unfolding wrap_untrusted
  again-fixed s again h = rw h refl

  wrap_untrusted-is_already_wrapped :
      (content source : Content) → is_already_wrapped (wrap_untrusted flagged content source) ≡ true
  unfolding wrap_untrusted
  wrap_untrusted-is_already_wrapped content source =
      elim (Bool-cases (is_already_wrapped (coerce_to_text content))) [
        | inl hit ↦ rw (hit, hit) refl
        | inr miss ↦ rw miss (
            fenced-is_already_wrapped (coerce_to_text source)
              (neutralize_injection_lines flagged (coerce_to_text content)))
      ]

  -- A text that is wrapped is not changed by a second wrapping, under whatever name of its source.
  pub wrap_untrusted_idem :
      (content source again : Content)
      → wrap_untrusted flagged (text (wrap_untrusted flagged content source)) again
        ≡ wrap_untrusted flagged content source
  wrap_untrusted_idem content source again =
      again-fixed (wrap_untrusted flagged content source) again
        (wrap_untrusted-is_already_wrapped content source)
