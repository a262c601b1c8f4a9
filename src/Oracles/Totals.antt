-- ===== src/Oracles/Totals.antt =====
-- Totals of amounts in the scripts of harness/conservation_oracle.py and harness/double_entry_oracle.py: how they go with the changes of an op.
use mathlib.Core.Nat
use mathlib.Core.Int.{ℤ, pos, negsuc, ◌+ℤ◌, +ℤ_assoc, +ℤ_comm, +ℤ_idl}
use jaros_code.Prelude.{
  String, true, false, List, [], ◌∷◌, ◌≡◌, refl, ap, sym, ◌∙◌, map, str_eq, eq_iff, eq_refl, arith,
  inl, inr, Bool-cases,
}
use jaros_code.Dict.{Dict, lookup, IsFresh, IsDict}
use jaros_code.Permissions.{one_of}
use jaros_code.Oracles.Balances.{
  nat_eq, int_zero, int_eq, amount, total, amounts, new_shadow, agrees, unique,
}

-- `sum(d.values())`
abbrev pub sum_of : Dict ℤ → ℤ
sum_of [] = int_zero
sum_of ((q, n) ∷ d) = n +ℤ sum_of d

abbrev sums : (String → ℤ) → List String → ℤ
sums f [] = int_zero
sums f (q ∷ qs) = f q +ℤ sums f qs

pub sum_of-amounts : (qs : List String) (d : Dict ℤ) → sum_of (amounts qs d) ≡ total qs d
unfolding total
sum_of-amounts [] d = refl
sum_of-amounts (q ∷ qs) d = ap (λ n. amount d q +ℤ n) (sum_of-amounts qs d)

+ℤ-interchange : (a b c d : ℤ) → (a +ℤ b) +ℤ (c +ℤ d) ≡ (a +ℤ c) +ℤ (b +ℤ d)
+ℤ-interchange a b c d =
    +ℤ_assoc a b (c +ℤ d)
    ∙ ap (λ n. a +ℤ n) (sym (+ℤ_assoc b c d) ∙ ap (λ n. n +ℤ d) (+ℤ_comm b c) ∙ +ℤ_assoc c b d)
    ∙ sym (+ℤ_assoc a c (b +ℤ d))

sums-+ℤ :
    (d e : Dict ℤ) (qs : List String)
    → sums (λ q. amount d q +ℤ amount e q) qs ≡ total qs d +ℤ total qs e
unfolding total
sums-+ℤ d e [] = refl
sums-+ℤ d e (q ∷ qs) =
    ap (λ n. (amount d q +ℤ amount e q) +ℤ n) (sums-+ℤ d e qs)
    ∙ +ℤ-interchange (amount d q) (amount e q) (total qs d) (total qs e)

-- A dict that is made from a list of names has each of them.
lookup-map :
    (f : String → ℤ) (k : String) (qs : List String)
    → one_of k qs ≡ true
    → amount (map (λ q. (q, f q)) qs) k ≡ f k
unfolding lookup
lookup-map f k [] h = ground arith
lookup-map f k (q ∷ qs) h = elim (Bool-cases (str_eq q k)) [
  | inl same ↦ rw same (ap f ((eq_iff q k).0 same))
  | inr other ↦ rw other (lookup-map f k qs (ground (arith, h, other, eq_iff q k, eq_iff k q)))
]

total-map :
    (f : String → ℤ) (qs : List String) (ks : List String)
    → ((k : String) → one_of k ks ≡ true → one_of k qs ≡ true)
    → total ks (map (λ q. (q, f q)) qs) ≡ sums f ks
unfolding total
total-map f qs [] h = refl
total-map f qs (k ∷ ks) h =
    rw
      (
        lookup-map f k qs (h k (ground (arith, eq_refl k))),
        total-map f qs ks (λ j e. h j (ground (arith, e))),
      )
      refl

-- The total after an op is the total before and the total of its changes.
pub total-new_shadow :
    (qs : List String) (shadow deltas : Dict ℤ)
    → total qs (new_shadow qs shadow deltas) ≡ total qs shadow +ℤ total qs deltas
unfolding new_shadow
total-new_shadow qs shadow deltas =
    total-map (λ q. amount shadow q +ℤ amount deltas q) qs qs (λ k e. e) ∙ sums-+ℤ shadow deltas qs

pub +ℤ_idr : (n : ℤ) → n +ℤ int_zero ≡ n
+ℤ_idr n = +ℤ_comm n int_zero ∙ +ℤ_idl n

nat_eq→eq : (m n : Nat.ℕ) → nat_eq m n ≡ true → m ≡ n
nat_eq→eq Nat.zero Nat.zero h = refl
nat_eq→eq Nat.zero (Nat.suc n) h = ground (arith, h)
nat_eq→eq (Nat.suc m) Nat.zero h = ground (arith, h)
nat_eq→eq (Nat.suc m) (Nat.suc n) h = ap Nat.suc (nat_eq→eq m n h)

pub int_eq→eq : (a b : ℤ) → int_eq a b ≡ true → a ≡ b
int_eq→eq (pos m) (pos n) h = ap pos (nat_eq→eq m n h)
int_eq→eq (pos m) (negsuc n) h = ground (arith, h)
int_eq→eq (negsuc m) (pos n) h = ground (arith, h)
int_eq→eq (negsuc m) (negsuc n) h = ap negsuc (nat_eq→eq m n h)

pub agrees-total :
    (qs : List String) (shadow final : Dict ℤ)
    → agrees qs shadow final ≡ true
    → total qs shadow ≡ total qs final
unfolding total
agrees-total [] shadow final h = refl
agrees-total (q ∷ qs) shadow final h =
    rw
      (
        int_eq→eq (amount shadow q) (amount final q) (ground (arith, h)),
        agrees-total qs shadow final (ground (arith, h)),
      )
      refl

amounts-IsFresh :
    (k : String) (qs : List String) (d : Dict ℤ) → one_of k qs ≡ false → IsFresh k (amounts qs d)
amounts-IsFresh k [] d h = tt
amounts-IsFresh k (q ∷ qs) d h =
    (ground (arith, h, eq_iff q k, eq_iff k q), amounts-IsFresh k qs d (ground (arith, h)))

pub amounts-IsDict : (qs : List String) (d : Dict ℤ) → unique qs ≡ true → IsDict (amounts qs d)
amounts-IsDict [] d h = tt
amounts-IsDict (q ∷ qs) d h =
    (amounts-IsFresh q qs d (ground (arith, h)), amounts-IsDict qs d (ground (arith, h)))
