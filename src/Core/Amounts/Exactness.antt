-- ===== src/Core/Amounts/Exactness.antt =====
-- The integer amount is the decimal amount, scaled.
use ghost_bazaar.Prelude.{
  ℕ, zero, suc, ◌+◌, ◌*◌, ◌-◌, ◌≤◌, ◌<◌, ◌≡◌, refl, sym, ap, subst, arith, true, List, [], ◌∷◌,
  ◌++◌, Option, none, some, length, Bool-cases, inl, inr,
}
use ghost_bazaar.Core.Amounts.{all_digits, read_digits, fit, is_decimal, normalize_parts}

-- `10 ** n`
unfoldable pub power_of_ten : ℕ → ℕ
power_of_ten zero = 1
power_of_ten (suc n) = 10 * power_of_ten n

read_digits-append :
    (n : ℕ) (xs ys : List ℕ) → read_digits n (xs ++ ys) ≡ read_digits (read_digits n xs) ys
unfolding read_digits
read_digits-append n [] ys = refl
read_digits-append n (c ∷ xs) ys = read_digits-append (10 * n + (c - b'0')) xs ys

read_digits-fit :
    (n d : ℕ) (frac : List ℕ)
    → length frac ≤ d
    → read_digits n (fit d frac) * power_of_ten (length frac) ≡ read_digits n frac * power_of_ten d
unfolding read_digits fit power_of_ten
read_digits-fit n zero [] h = refl
read_digits-fit n zero (c ∷ frac) h = absurd (omega (arith, h))
read_digits-fit n (suc d) [] h = grind (arith, read_digits-fit (10 * n) d [] (omega arith))
read_digits-fit n (suc d) (c ∷ frac) h =
    grind (arith, read_digits-fit (10 * n + (c - b'0')) d frac (omega (arith, h)))

-- Digits that follow a number scale it and add less than one unit.
read_digits-bounds :
    (n : ℕ) (xs : List ℕ)
    → all_digits xs ≡ true
    → (n * power_of_ten (length xs) ≤ read_digits n xs)
      × (read_digits n xs < (n + 1) * power_of_ten (length xs))
unfolding read_digits power_of_ten all_digits
read_digits-bounds n [] h = (omega arith, omega arith)
read_digits-bounds n (c ∷ xs) h =
    let digit : c - b'0' ≤ 9 = ground (arith, h) in
    let (low, high) = read_digits-bounds (10 * n + (c - b'0')) xs (ground (arith, h)) in
    scale n (c - b'0') (9 - (c - b'0')) (power_of_ten (length xs))
      (read_digits (10 * n + (c - b'0')) xs) (omega (arith, digit)) low high
  where
    scale :
        (n v w p r : ℕ)
        → v + w ≡ 9
        → (10 * n + v) * p ≤ r
        → r < (10 * n + v + 1) * p
        → (n * (10 * p) ≤ r) × (r < (n + 1) * (10 * p))
    scale n v w p r digit low high =
        (grind (arith, low), grind (arith, high, digit, ap (λ k. k * p) digit))

read_digits-truncated :
    (n d more : ℕ) (frac : List ℕ)
    → all_digits frac ≡ true
    → length frac ≡ d + more
    → (read_digits n (fit d frac) * power_of_ten more ≤ read_digits n frac)
      × (read_digits n frac < (read_digits n (fit d frac) + 1) * power_of_ten more)
unfolding read_digits fit all_digits
read_digits-truncated n zero more frac digits h =
    let same : length frac ≡ more = omega (arith, h) in
    subst
      (λ k.
        (n * power_of_ten k ≤ read_digits n frac) × (read_digits n frac < (n + 1) * power_of_ten k))
      same (read_digits-bounds n frac digits)
read_digits-truncated n (suc d) more [] digits h = absurd (omega (arith, h))
read_digits-truncated n (suc d) more (c ∷ frac) digits h =
    read_digits-truncated (10 * n + (c - b'0')) d more frac (ground (arith, digits))
      (omega (arith, h))

decimal_digits :
    (d : ℕ) (int frac : List ℕ) (n : ℕ)
    → normalize_parts d (int, some frac) ≡ some n
    → (all_digits frac ≡ true) × (n ≡ read_digits 0 (int ++ fit d frac))
unfolding normalize_parts is_decimal
decimal_digits d int frac n h = elim (Bool-cases (is_decimal (int, some frac))) [
  | inl decimal ↦ (ground (arith, decimal), sym (some-injective (rw decimal at h)))
  | inr other ↦ absurd (none-some (rw other at h))
]
  where
    some-injective : {a b : ℕ} → ◌≡◌ {A = Option ℕ} (some a) (some b) → a ≡ b
    some-injective p = cc

    none-some : {b : ℕ} → ◌≡◌ {A = Option ℕ} none (some b) → ⊥
    none-some p = cc

-- A decimal with at most d digits behind the point is scaled exactly: the amount is the number
-- times ten to the d.
pub normalize_parts_exact :
    (d : ℕ) (int frac : List ℕ) (n : ℕ)
    → normalize_parts d (int, some frac) ≡ some n
    → length frac ≤ d
    → n * power_of_ten (length frac) ≡ read_digits 0 (int ++ frac) * power_of_ten d
normalize_parts_exact d int frac n h short =
    let (_, value) = decimal_digits d int frac n h in
    rw (value, read_digits-append 0 int (fit d frac), read_digits-append 0 int frac)
      (read_digits-fit (read_digits 0 int) d frac short)

-- A decimal with more than or exactly d digits behind the point is scaled and rounded down: the
-- amount is within one unit of the number times ten to the d, and not above it.
pub normalize_parts_truncated :
    (d more : ℕ) (int frac : List ℕ) (n : ℕ)
    → normalize_parts d (int, some frac) ≡ some n
    → length frac ≡ d + more
    → (n * power_of_ten more ≤ read_digits 0 (int ++ frac))
      × (read_digits 0 (int ++ frac) < (n + 1) * power_of_ten more)
normalize_parts_truncated d more int frac n h long =
    let (digits, value) = decimal_digits d int frac n h in
    rw (value, read_digits-append 0 int (fit d frac), read_digits-append 0 int frac)
      (read_digits-truncated (read_digits 0 int) d more frac digits long)
