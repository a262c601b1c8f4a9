-- ===== src/Adt/Lru.antt =====
-- `_LruReferenceModel` of harness/adt_oracle.py: an `OrderedDict`, least recently used first.
use mathlib.Core.Path.{subst}
use jaros_code.Prelude.{
  ℕ, ◌≤◌, String, ◌≡◌, refl, ap, ◌∙◌, Bool, true, false, ◌&&◌, Option, none, some, [], ◌∷◌, ◌++◌,
  arith, length, length-append, ltb, ◌==◌, str_eq, eq_iff, inl, inr, Bool-cases, if◌then◌else◌,
}
use jaros_code.Dict.{
  Dict, lookup, remove, IsFresh, IsDict, lookup-remove, lookup-append, lookup-IsFresh,
  lookup-none-IsFresh, IsFresh-remove_same, remove-IsDict, append-IsDict, length-remove,
}

pub record Lru : Type 0 where
  pub capacity : ℕ
  pub entries : Dict String

-- `__init__`, at a capacity that is not negative: `max(1, int(capacity))`.
unfoldable pub new_lru : ℕ → Lru
new_lru capacity = record { capacity = (if capacity == 0 then 1 else capacity); entries = [] }

-- `move_to_end(key)` of a key with a value
abbrev pub move_to_end : Dict String → String → String → Dict String
move_to_end d k v = remove d k ++ (k, v) ∷ []

abbrev get_found : Lru → String → Option String → Option String × Lru
get_found s k none = (none, s)
get_found s k (some v) = (some v, record s { entries = move_to_end s.entries k v })

unfoldable pub get : Lru → String → Option String × Lru
get s k = get_found s k (lookup s.entries k)

-- `popitem(last=False)`
abbrev pub pop_first : Dict String → Dict String
pop_first [] = []
pop_first (e ∷ d) = d

-- The assignment after `move_to_end`: the key is last or new, so its entry ends up last.
abbrev pub stored : Dict String → String → String → Option String → Dict String
stored d k v none = d ++ (k, v) ∷ []
stored d k v (some old) = move_to_end d k v

abbrev pub evicted : ℕ → Dict String → Dict String
evicted capacity d = if ltb capacity (length d) then pop_first d else d

unfoldable pub put : Lru → String → String → Lru
put s k v = record s { entries = evicted s.capacity (stored s.entries k v (lookup s.entries k)) }

-- The cache keeps each key once and at most `capacity` of them.
pub record IsValid (s : Lru) : Type 0 where
  pub positive : 1 ≤ s.capacity
  pub fits : length s.entries ≤ s.capacity
  pub dict : IsDict s.entries

pub new_lru-IsValid : (capacity : ℕ) → IsValid (new_lru capacity)
unfolding new_lru
new_lru-IsValid capacity = record { positive = ground arith; fits = ground arith; dict = tt }

move_to_end-IsDict : (d : Dict String) (k v : String) → IsDict d → IsDict (move_to_end d k v)
move_to_end-IsDict d k v h =
    append-IsDict (remove d k) k v (remove-IsDict d k h) (IsFresh-remove_same d k)

length-move_to_end :
    (d : Dict String) (k v old : String)
    → IsDict d
    → lookup d k ≡ some old
    → length (move_to_end d k v) ≡ length d
length-move_to_end d k v old h e =
    length-append (remove d k) ((k, v) ∷ []) ∙ omega (arith, length-remove d k old h e)

lookup-move_to_end :
    (d : Dict String) (k v j : String)
    → lookup (move_to_end d k v) j ≡ (if str_eq k j then some v else lookup d j)
lookup-move_to_end d k v j =
    lookup-append (remove d k) k j v (lookup-IsFresh (remove d k) k (IsFresh-remove_same d k))
    ∙ ground (arith, lookup-remove d k j)

-- A read changes the order of the keys and no value, and keeps the cache valid.
pub get_lem :
    (s : Lru) (k j : String)
    → IsValid s
    → ((get s k).0 ≡ lookup s.entries k)
      × (lookup (get s k).1.entries j ≡ lookup s.entries j)
      × IsValid (get s k).1
unfolding get
get_lem s k j h = go (lookup s.entries k) refl
  where
    go :
        (o : Option String)
        → lookup s.entries k ≡ o
        → ((get_found s k o).0 ≡ o)
          × (lookup (get_found s k o).1.entries j ≡ lookup s.entries j)
          × IsValid (get_found s k o).1
    go none e = (refl, refl, h)
    go (some v) e = (
      refl,
      lookup-move_to_end s.entries k v j ∙ ground (arith, eq_iff k j, e),
      record {
        positive = h.positive;
        fits = omega (arith, length-move_to_end s.entries k v v h.dict e, h.fits);
        dict = move_to_end-IsDict s.entries k v h.dict;
      },
    )

-- The key of the least recently used entry.
abbrev pub is_first : Dict String → String → Bool
is_first [] j = false
is_first ((i, a) ∷ d) j = str_eq i j

-- The key that a `put` of another key evicts: the least recently used one, where the cache is full
-- and the new key is not in it.
abbrev pub is_evicted : ℕ → Dict String → Option String → String → Bool
is_evicted capacity d (some old) j = false
is_evicted capacity d none j = (length d == capacity) && is_first d j

-- What a `put` leaves of a key.
abbrev pub after_put : Lru → String → String → String → Option String
after_put s k v j =
    if str_eq k j
    then some v
    else if is_evicted s.capacity s.entries (lookup s.entries k) j
    then none
    else lookup s.entries j

full-append :
    (capacity : ℕ) (d : Dict String) (k v j : String)
    → 1 ≤ capacity
    → length d ≡ capacity
    → IsDict d
    → IsFresh k d
    → (lookup (pop_first (d ++ (k, v) ∷ [])) j
        ≡ (if str_eq k j then some v else if is_first d j then none else lookup d j))
      × (length (pop_first (d ++ (k, v) ∷ [])) ≡ capacity)
      × IsDict (pop_first (d ++ (k, v) ∷ []))
unfolding lookup
full-append capacity [] k v j p full h f = absurd (omega arith)
full-append capacity ((i, a) ∷ d) k v j p full h f =
    let found = lookup-append d k j v (lookup-IsFresh d k f.1) in
    let gone : str_eq i j ≡ true → lookup d j ≡ none =
      λ e. subst (λ x. lookup d x ≡ none) ((eq_iff i j).0 e) (lookup-IsFresh d i h.0) in
    (
      found ∙ ground (arith, gone, eq_iff i j),
      length-append d ((k, v) ∷ []) ∙ omega arith,
      append-IsDict d k v h.1 f.1,
    )

-- The cache after a `put`: valid, and each key reads as `after_put` says.
pub put_lem :
    (s : Lru) (k v j : String)
    → IsValid s
    → IsValid (put s k v) × (lookup (put s k v).entries j ≡ after_put s k v j)
unfolding put
put_lem s k v j h = go (lookup s.entries k) refl
  where
    Goal : Option String → Type 0
    Goal o =
        IsValid (record s { entries = evicted s.capacity (stored s.entries k v o) })
        × (lookup (evicted s.capacity (stored s.entries k v o)) j ≡ (
            if str_eq k j
            then some v
            else if is_evicted s.capacity s.entries o j
            then none
            else lookup s.entries j))

    stays :
        (d : Dict String)
        → length d ≤ s.capacity
        → IsDict d
        → IsValid (record s { entries = evicted s.capacity d }) × (evicted s.capacity d ≡ d)
    stays d fits dict =
        let small : ltb s.capacity (length d) ≡ false = ground arith in
        let e : evicted s.capacity d ≡ d = rw small in
        (record { positive = h.positive; fits = rw e fits; dict = rw e dict }, e)

    go : (o : Option String) → lookup s.entries k ≡ o → Goal o
    go (some old) e =
        let kept =
          stays (move_to_end s.entries k v)
            (omega (arith, length-move_to_end s.entries k v old h.dict e, h.fits))
            (move_to_end-IsDict s.entries k v h.dict) in
        (kept.0, ap (λ d. lookup d j) kept.1 ∙ lookup-move_to_end s.entries k v j)
    go none e =
        let fresh = lookup-none-IsFresh s.entries k e in
        let longer = length-append s.entries ((k, v) ∷ []) in
        elim (Bool-cases (length s.entries == s.capacity)) [
          | inl full ↦
              let new =
                full-append s.capacity s.entries k v j h.positive (ground arith) h.dict fresh in
              let big : ltb s.capacity (length (s.entries ++ (k, v) ∷ [])) ≡ true =
                ground (arith, longer) in
              let e : evicted s.capacity (s.entries ++ (k, v) ∷ [])
                  ≡ pop_first (s.entries ++ (k, v) ∷ []) =
                rw big in
              (
                record {
                  positive = h.positive;
                  fits = rw e (omega (arith, new.1));
                  dict = rw e new.2;
                },
                ap (λ d. lookup d j) e ∙ new.0 ∙ ground arith,
              )
          | inr room ↦
              let kept =
                stays (s.entries ++ (k, v) ∷ []) (ground (arith, longer, h.fits))
                  (append-IsDict s.entries k v h.dict fresh) in
              (kept.0, ap (λ d. lookup d j) kept.1 ∙ lookup-append s.entries k j v e ∙ ground arith)
        ]
