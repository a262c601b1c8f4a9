-- ===== src/JsonLines/RoundTrip.antt =====
-- Reading back what `_write_all` wrote, and what `change_first` changes, in the JSON-lines stores.
use mathlib.Core.Path.{subst}
use jaros_code.Prelude.{
  ℕ, zero, suc, ◌-◌, ◌≤◌, String, ◌≡◌, refl, ap, sym, Bool, true, false, Option, none, some, List,
  [], ◌∷◌, ◌++◌, map, arith, inl, inr, Bool-cases, All, OnSome, All-drop, All-filter_map, length,
  length-drop, filter_map,
}
use jaros_code.Text.{is_empty, strip}
use jaros_code.Value.{Value, object, Fields}
use jaros_code.Exec.{Result, ok, err}
use jaros_code.JsonLines.{
  FileState, absent, unreadable, undecodable, lines, Json, has_keys, record_of, parse_line,
  load_all, slice_last, in_front, change_first,
}

-- `json.loads(json.dumps(record))` is the record again, and the line has no space around it.
pub record Survives (json : Json) (r : Fields) : Type 0 where
  pub loads_dumps : json.loads (json.dumps r) ≡ some (object r)
  pub stripped : strip (json.dumps r) ≡ json.dumps r
  pub not_blank : is_empty (json.dumps r) ≡ false

module _ (json : Json) (keys : List String) where
  abbrev pub HasKeys : Fields → Type 0
  HasKeys r = has_keys keys r ≡ true

  parse_line-dumps :
      (r : Fields) → Survives json r → HasKeys r → parse_line json keys (json.dumps r) ≡ some r
  unfolding parse_line
  parse_line-dumps r s k = rw (s.stripped, s.not_blank, s.loads_dumps, k)

  filter_map-dumps :
      (rs : List Fields)
      → All (Survives json) rs
      → All HasKeys rs
      → filter_map (parse_line json keys) (map json.dumps rs) ≡ rs
  filter_map-dumps [] s k = refl
  filter_map-dumps (r ∷ rs) s k =
      rw (parse_line-dumps r s.0 k.0) (ap (λ l. r ∷ l) (filter_map-dumps rs s.1 k.1))

  -- What `_write_all` wrote, `_load_all` reads back.
  pub load_all-dumps :
      (rs : List Fields)
      → All (Survives json) rs
      → All HasKeys rs
      → load_all json keys (lines (map json.dumps rs)) ≡ ok rs
  unfolding load_all
  load_all-dumps rs s k = ap ok (filter_map-dumps rs s k)

  record_of-HasKeys : (o : Option Value) → OnSome HasKeys (record_of json keys o)
  record_of-HasKeys (some (object fs)) = elim (Bool-cases (has_keys keys fs)) [
    | inl full ↦ rw (full, OnSome) full
    | inr short ↦ rw (short, OnSome) tt
  ]
  record_of-HasKeys none = tt
  record_of-HasKeys (some _) = tt

  parse_line-HasKeys : (line : String) → OnSome HasKeys (parse_line json keys line)
  unfolding parse_line
  parse_line-HasKeys line = elim (Bool-cases (is_empty (strip line))) [
    | inl blank ↦ rw (blank, OnSome) tt
    | inr full ↦ rw full (record_of-HasKeys (json.loads (strip line)))
  ]

  abbrev pub OnOk : (List Fields → Type 0) → Result (List Fields) → Type 0
  OnOk P (ok rs) = P rs
  OnOk P (err e) = Unit

  -- Every record that is read has the required keys.
  pub load_all-HasKeys : (file : FileState) → OnOk (All HasKeys) (load_all json keys file)
  unfolding load_all
  load_all-HasKeys absent = tt
  load_all-HasKeys unreadable = tt
  load_all-HasKeys undecodable = tt
  load_all-HasKeys (lines ls) = All-filter_map HasKeys (parse_line json keys) ls parse_line-HasKeys

pub length-slice_last :
    {A : Type 0} (cap : ℕ) (xs : List A) → 1 ≤ cap → length (slice_last cap xs) ≤ cap
unfolding slice_last
length-slice_last zero xs h = absurd (omega arith)
length-slice_last (suc n) xs h = omega (arith, length-drop (length xs - suc n) xs)

pub All-slice_last :
    {A : Type 0} (P : A → Type 0) (cap : ℕ) (xs : List A) → All P xs → All P (slice_last cap xs)
unfolding slice_last
All-slice_last P zero xs h = h
All-slice_last P (suc n) xs h = All-drop P (length xs - suc n) xs h

-- What `change_first` finds: the first record with the property, changed, in its place.
pub record IsChanged (test : Fields → Bool) (change : Fields → Fields) (rs : List Fields)
    (found : Fields) (after : List Fields) : Type 0 where
  pub old : Fields
  pub before : List Fields
  pub rest : List Fields
  pub split : rs ≡ before ++ old ∷ rest
  pub earlier : All (λ r. test r ≡ false) before
  pub fits : test old ≡ true
  pub new : found ≡ change old
  pub kept : after ≡ before ++ change old ∷ rest

module _ (test : Fields → Bool) (change : Fields → Fields) where
  abbrev pub Changed : List Fields → Option (Fields × List Fields) → Type 0
  Changed rs none = All (λ r. test r ≡ false) rs
  Changed rs (some (found, after)) = IsChanged test change rs found after

  Changed-in_front :
      (r : Fields) (rs : List Fields) (o : Option (Fields × List Fields))
      → test r ≡ false
      → Changed rs o
      → Changed (r ∷ rs) (in_front r o)
  Changed-in_front r rs none miss h = (miss, h)
  Changed-in_front r rs (some (found, after)) miss h = record {
    old = h.old;
    before = r ∷ h.before;
    rest = h.rest;
    split = ap (λ l. r ∷ l) h.split;
    earlier = (miss, h.earlier);
    fits = h.fits;
    new = h.new;
    kept = ap (λ l. r ∷ l) h.kept;
  }

  pub change_first-Changed : (rs : List Fields) → Changed rs (change_first test change rs)
  unfolding change_first
  change_first-Changed [] = tt
  change_first-Changed (r ∷ rs) = elim (Bool-cases (test r)) [
    | inl hit ↦
        let e : change_first test change (r ∷ rs) ≡ some (change r, change r ∷ rs) = rw hit in
        subst (Changed (r ∷ rs)) (sym e) (record {
          old = r;
          before = [];
          rest = rs;
          split = refl;
          earlier = tt;
          fits = hit;
          new = refl;
          kept = refl;
        })
    | inr miss ↦
        let e : change_first test change (r ∷ rs) ≡ in_front r (change_first test change rs) =
          rw miss in
        subst (Changed (r ∷ rs)) (sym e)
          (Changed-in_front r rs (change_first test change rs) miss (change_first-Changed rs))
  ]

  -- Where no record has the property, nothing is found.
  pub change_first-misses :
      (rs : List Fields) → All (λ r. test r ≡ false) rs → change_first test change rs ≡ none
  unfolding change_first
  change_first-misses [] h = refl
  change_first-misses (r ∷ rs) h = rw (h.0, change_first-misses rs h.1)
