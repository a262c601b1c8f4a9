-- ===== src/CheckpointRing/Lookup.antt =====
-- Finding a checkpoint by id or by prefix, and its position, in harness/checkpoint_ring.py.
use text.Mathlib.Text.{starts_with}
use mathlib.Core.Path.{subst}
use jaros_code.Prelude.{
  ℕ, zero, suc, ◌+◌, ◌≤◌, ◌<◌, ◌≡◌, refl, ap, sym, ◌∙◌, String, Bool, true, false, Option, none,
  some, List, [], ◌∷◌, ◌++◌, ◌⊎◌, inl, inr, arith, str_eq, eq_iff, length, All, find, Bool-cases,
  Option-cases,
}
use jaros_code.Text.{is_empty}
use jaros_code.CheckpointRing.{
  CheckpointEntry, CheckpointRing, entries_newest_first, by_id, or_prefix, position, position_of,
  position_from_newest,
}
use jaros_code.CheckpointRing.Bounds.{length-reverse}

module _ {A : Type 0} (p : A → Bool) where
  -- The first element of the list with the property.
  pub record IsFirst (xs : List A) (x : A) : Type 0 where
    pub before : List A
    pub after : List A
    pub split : xs ≡ before ++ x ∷ after
    pub earlier : All (λ y. p y ≡ false) before
    pub has : p x ≡ true

  abbrev pub Found : List A → Option A → Type 0
  Found xs none = All (λ y. p y ≡ false) xs
  Found xs (some x) = IsFirst xs x

  Found-skip : (x : A) (xs : List A) (o : Option A) → p x ≡ false → Found xs o → Found (x ∷ xs) o
  Found-skip x xs none miss h = (miss, h)
  Found-skip x xs (some y) miss h = record {
    before = x ∷ h.before;
    after = h.after;
    split = ap (λ l. x ∷ l) h.split;
    earlier = (miss, h.earlier);
    has = h.has;
  }

  find-Found : (xs : List A) → Found xs (find p xs)
  find-Found [] = tt
  find-Found (x ∷ xs) = elim (Bool-cases (p x)) [
    | inl hit ↦
        rw (hit, Found) (record { before = []; after = xs; split = refl; earlier = tt; has = hit })
    | inr miss ↦
        let e : find p (x ∷ xs) ≡ find p xs = rw (miss, find) in
        subst (Found (x ∷ xs)) (sym e) (Found-skip x xs (find p xs) miss (find-Found xs))
  ]

abbrev has_id : String → CheckpointEntry → Bool
has_id id e = str_eq e.id id

abbrev has_prefix : String → CheckpointEntry → Bool
has_prefix id e = starts_with e.id id

-- What `by_id` returns for a non-empty text: the oldest entry with exactly that id; if there is
-- none, the oldest entry whose id begins with the text; if there is none either, nothing.
abbrev pub Lookup : List CheckpointEntry → String → Option CheckpointEntry → Type 0
Lookup es id o =
    ((e : CheckpointEntry) × (o ≡ some e) × IsFirst (has_id id) es e)
    ⊎ (All (λ e. has_id id e ≡ false) es × Found (has_prefix id) es o)

or_prefix-Lookup :
    (es : List CheckpointEntry) (id : String) (o : Option CheckpointEntry)
    → Found (has_id id) es o
    → Lookup es id (or_prefix o id es)
or_prefix-Lookup es id (some e) h = inl (e, refl, h)
or_prefix-Lookup es id none h = inr (h, find-Found (has_prefix id) es)

-- An exact id wins over a prefix, and among several candidates the oldest entry is returned: a
-- prefix need not be unique. The empty text finds nothing.
pub by_id-Lookup :
    (ring : CheckpointRing) (id : String)
    → ((is_empty id ≡ true) × (by_id ring id ≡ none))
      ⊎ ((is_empty id ≡ false) × Lookup ring.entries id (by_id ring id))
unfolding by_id
by_id-Lookup ring id = elim (Bool-cases (is_empty id)) [
  | inl empty ↦ inl (empty, rw empty)
  | inr full ↦ inr (
    full,
    rw full (
        or_prefix-Lookup ring.entries id (find (has_id id) ring.entries)
          (find-Found (has_id id) ring.entries)),
  )
]

-- The entry that stands at a 1-based position.
abbrev pub at_position : List CheckpointEntry → ℕ → Option CheckpointEntry
at_position [] n = none
at_position (e ∷ es) zero = none
at_position (e ∷ es) (suc zero) = some e
at_position (e ∷ es) (suc (suc n)) = at_position es (suc n)

-- A position that is found, relative to the number of the first element.
record At (k : ℕ) (id : String) (es : List CheckpointEntry) (n : ℕ) : Type 0 where
  offset : ℕ
  number : n ≡ k + offset
  inside : offset < length es
  entry : CheckpointEntry
  stands : at_position es (suc offset) ≡ some entry
  named : entry.id ≡ id

position-At :
    (k : ℕ) (id : String) (es : List CheckpointEntry) (n : ℕ)
    → position k id es ≡ some n
    → At k id es n
unfolding position
position-At k id [] n h = cc
position-At k id (e ∷ es) n h = elim (Bool-cases (str_eq e.id id)) [
  | inl hit ↦ record {
    offset = 0;
    number = ground arith;
    inside = omega arith;
    entry = e;
    stands = refl;
    named = (eq_iff e.id id).0 hit;
  }
  | inr miss ↦
      let later = position-At (k + 1) id es n (ground arith) in
      record {
        offset = suc later.offset;
        number = omega (arith, later.number);
        inside = omega (arith, later.inside);
        entry = later.entry;
        stands = later.stands;
        named = later.named;
      }
]

-- A position that `position_from_newest` returns lies between 1 and the number of entries, and the
-- entry that stands there, counted from the newest, has the id of the entry that `by_id` finds.
pub position_from_newest-at :
    (ring : CheckpointRing) (id : String) (n : ℕ)
    → position_from_newest ring id ≡ some n
    → (1 ≤ n)
      × (n ≤ length ring.entries)
      × (found entry : CheckpointEntry) × (by_id ring id ≡ some found)
      × (at_position (entries_newest_first ring) n ≡ some entry)
      × (entry.id ≡ found.id)
unfolding position_from_newest
position_from_newest-at ring id n h = elim (Option-cases (by_id ring id)) [
  | inl nothing ↦ cc (ap (position_of ring) nothing)
  | inr (found, e) ↦
      let a =
        position-At 1 found.id (entries_newest_first ring) n (sym (ap (position_of ring) e) ∙ h) in
      let number : n ≡ suc a.offset = omega (arith, a.number) in
      (
        omega arith,
        omega (arith, a.inside, length-reverse ring.entries),
        found,
        a.entry,
        e,
        subst (λ m. at_position (entries_newest_first ring) m ≡ some a.entry) (sym number) a.stands,
        a.named,
      )
]
