-- ===== src/CheckpointRing/Bounds.antt =====
-- The ring of harness/checkpoint_ring.py as a window on the history of the edits.
use mathlib.Core.List.{reverse, reverse-cons, reverse-append}
use mathlib.Core.Path.{subst}
use native.Mathlib.Decide.{dec_le}
use jaros_code.Prelude.{
  ℕ, zero, suc, ◌-◌, ◌≤◌, min, ◌≡◌, refl, ap, sym, ◌∙◌, List, [], ◌∷◌, ◌++◌, arith, append-nil,
  append_assoc, length, take, drop, length-append, length-drop, length-take,
}
use jaros_code.CheckpointRing.{
  CheckpointEntry, CheckpointRing, empty, append, entries_newest_first, last_n, pop, pop_times,
  drop_last_n,
}

module _ {ℓ} {A : Type ℓ} where
  pub length-reverse : (xs : List A) → length (reverse xs) ≡ length xs
  length-reverse [] = refl
  length-reverse (x ∷ xs) =
      rw (reverse-cons x xs)
        (length-append (reverse xs) (x ∷ []) ∙ omega (arith, length-reverse xs))

  take_exact : (xs ys : List A) → take (length xs) (xs ++ ys) ≡ xs
  take_exact [] ys = refl
  take_exact (x ∷ xs) ys = ap (λ l. x ∷ l) (take_exact xs ys)

  take_all : (n : ℕ) (xs : List A) → length xs ≤ n → take n xs ≡ xs
  take_all zero [] h = refl
  take_all zero (x ∷ xs) h = absurd (omega arith)
  take_all (suc n) [] h = refl
  take_all (suc n) (x ∷ xs) h = ap (λ l. x ∷ l) (take_all n xs (omega arith))

  take-take-suc : (n : ℕ) (xs : List A) → take n (take (suc n) xs) ≡ take n xs
  take-take-suc zero xs = refl
  take-take-suc (suc n) [] = refl
  take-take-suc (suc n) (x ∷ xs) = ap (λ l. x ∷ l) (take-take-suc n xs)

  take-append_le : (n : ℕ) (xs ys : List A) → n ≤ length xs → take n (xs ++ ys) ≡ take n xs
  take-append_le zero xs ys h = refl
  take-append_le (suc n) [] ys h = absurd (omega arith)
  take-append_le (suc n) (x ∷ xs) ys h = ap (λ l. x ∷ l) (take-append_le n xs ys (omega arith))

  take-cons-take : (n : ℕ) (x : A) (xs : List A) → take n (x ∷ take n xs) ≡ take n (x ∷ xs)
  take-cons-take zero x xs = refl
  take-cons-take (suc n) x xs = ap (λ l. x ∷ l) (take-take-suc n xs)

  -- The last n of a list, newest first.
  reverse-drop : (n : ℕ) (xs : List A) → reverse (drop (length xs - n) xs) ≡ take n (reverse xs)
  reverse-drop n [] = let e : 0 - n ≡ 0 = omega arith in rw e (sym (take_all n [] (omega arith)))
  reverse-drop n (x ∷ xs) = elim (dec_le n (length xs)) [
    | yes fits ↦
        let e : suc (length xs) - n ≡ suc (length xs - n) = omega arith in
        rw (e, reverse-cons x xs)
          (reverse-drop n xs
            ∙ sym (take-append_le n (reverse xs) (x ∷ []) (omega (arith, length-reverse xs))))
    | no over ↦
        let e : suc (length xs) - n ≡ 0 = omega arith in
        rw e (sym (take_all n (reverse (x ∷ xs)) (omega (arith, length-reverse (x ∷ xs)))))
  ]

  take-drop-min : (n : ℕ) (xs : List A) → take n xs ++ drop (min n (length xs)) xs ≡ xs
  take-drop-min zero xs = let e : min 0 (length xs) ≡ 0 = omega arith in rw e
  take-drop-min (suc n) [] = let e : min (suc n) 0 ≡ 0 = omega arith in rw e
  take-drop-min (suc n) (x ∷ xs) =
      let e : min (suc n) (suc (length xs)) ≡ suc (min n (length xs)) = omega arith in
      rw e (ap (λ l. x ∷ l) (take-drop-min n xs))

  drop_one-append : (xs ys : List A) → 1 ≤ length xs → drop 1 (xs ++ ys) ≡ drop 1 xs ++ ys
  drop_one-append [] ys h = absurd (omega arith)
  drop_one-append (x ∷ xs) ys h = refl

  drop-drop_one : (n : ℕ) (xs : List A) → drop n (drop 1 xs) ≡ drop (suc n) xs
  drop-drop_one zero [] = refl
  drop-drop_one (suc n) [] = refl
  drop-drop_one n (x ∷ xs) = refl

reverse-pop : (es : List CheckpointEntry) → reverse (pop es) ≡ drop 1 (reverse es)
reverse-pop [] = refl
reverse-pop (e ∷ []) = refl
reverse-pop (e ∷ f ∷ es) =
    reverse-cons e (pop (f ∷ es))
    ∙ ap (λ l. l ++ e ∷ []) (reverse-pop (f ∷ es))
    ∙ sym (drop_one-append (reverse (f ∷ es)) (e ∷ []) (omega (arith, length-reverse (f ∷ es))))
    ∙ ap (λ l. drop 1 l) (sym (reverse-cons e (f ∷ es)))

reverse-pop_times :
    (n : ℕ) (es : List CheckpointEntry) → reverse (pop_times n es) ≡ drop n (reverse es)
unfolding pop_times
reverse-pop_times zero es = refl
reverse-pop_times (suc n) es =
    reverse-pop_times n (pop es)
    ∙ ap (λ l. drop n l) (reverse-pop es)
    ∙ drop-drop_one n (reverse es)

abbrev pub IsBounded : CheckpointRing → Type 0
IsBounded ring = length ring.entries ≤ ring.maxlen

-- A ring never holds more than `maxlen` entries, whatever it held before.
pub append-IsBounded : (ring : CheckpointRing) (e : CheckpointEntry) → IsBounded (append ring e)
unfolding append
append-IsBounded ring e =
    omega
      (arith, length-drop (length (ring.entries ++ e ∷ []) - ring.maxlen) (ring.entries ++ e ∷ []))

-- Appending puts the entry in front and keeps the newest `maxlen`.
pub newest-append :
    (ring : CheckpointRing) (e : CheckpointEntry)
    → entries_newest_first (append ring e) ≡ take ring.maxlen (e ∷ entries_newest_first ring)
unfolding append
newest-append ring e =
    reverse-drop ring.maxlen (ring.entries ++ e ∷ [])
    ∙ ap (λ l. take ring.maxlen l) (reverse-append ring.entries (e ∷ []))

-- `record` called for each entry of a history, oldest first.
abbrev pub append_all : CheckpointRing → List CheckpointEntry → CheckpointRing
append_all ring [] = ring
append_all ring (e ∷ es) = append_all (append ring e) es

maxlen-append : (ring : CheckpointRing) (e : CheckpointEntry) → (append ring e).maxlen ≡ ring.maxlen
unfolding append
maxlen-append ring e = refl

window :
    (ring : CheckpointRing) (past es : List CheckpointEntry)
    → entries_newest_first ring ≡ take ring.maxlen (reverse past)
    → entries_newest_first (append_all ring es) ≡ take ring.maxlen (reverse (past ++ es))
window ring past [] h = rw (append-nil past) h
window ring past (e ∷ es) h =
    subst (λ m. entries_newest_first (append_all ring (e ∷ es)) ≡ take m (reverse (past ++ e ∷ es)))
      (maxlen-append ring e)
      (rw (← append_assoc past (e ∷ []) es) (
        window (append ring e) (past ++ e ∷ []) es (
          rw maxlen-append (
            newest-append ring e
            ∙ ap (λ l. take ring.maxlen (e ∷ l)) h
            ∙ take-cons-take ring.maxlen e (reverse past)
            ∙ ap (λ l. take ring.maxlen l) (sym (reverse-append past (e ∷ [])))))))

-- After any history of edits the ring, read newest first, is the newest `maxlen` of them.
pub ring-window :
    (maxlen : ℕ) (history : List CheckpointEntry)
    → entries_newest_first (append_all (empty maxlen) history) ≡ take maxlen (reverse history)
unfolding empty
ring-window maxlen history =
    window (empty maxlen) [] history (sym (take_all maxlen [] (omega arith)))

last_n-take : (ring : CheckpointRing) (n : ℕ) → last_n ring n ≡ take n (entries_newest_first ring)
unfolding last_n
last_n-take ring zero = refl
last_n-take ring (suc n) = refl

-- `drop_last_n` removes exactly the entries that `last_n` returned: read newest first, the ring
-- before is those entries followed by the ring after, and the capacity stays. This holds for every
-- n; beyond the length both take all.
pub last_n-drop_last_n :
    (ring : CheckpointRing) (n : ℕ)
    → (last_n ring n ++ entries_newest_first (drop_last_n ring n) ≡ entries_newest_first ring)
      × (length (last_n ring n) ≡ min n (length ring.entries))
      × ((drop_last_n ring n).maxlen ≡ ring.maxlen)
unfolding drop_last_n
last_n-drop_last_n ring n =
    let newest = entries_newest_first ring in
    let same : length newest ≡ length ring.entries = length-reverse ring.entries in
    (
      rw (last_n-take ring n, reverse-pop_times, ← same) (take-drop-min n newest),
      rw (last_n-take ring n, ← same) (length-take n newest),
      refl,
    )
