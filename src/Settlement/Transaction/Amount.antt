-- ===== src/Settlement/Transaction/Amount.antt =====
-- The amount in the bytes of a token transfer: eight bytes, the lowest first.
use native.Mathlib.Nat.{div-add-mod}
use native.Mathlib.Numerals.{towards_suc}
use ghost_bazaar.Prelude.{
  ℕ, zero, suc, ◌+◌, ◌*◌, ◌/◌, ◌%◌, ◌^◌, ◌<◌, ◌≡◌, refl, sym, ap, ◌∙◌, List, [], ◌∷◌, ◌++◌, length,
  length-append, get_elem?, some, append_assoc, arith,
}
use ghost_bazaar.Settlement.Transaction.{byte_at, value_of, read_rounds, read_u64_le}

-- The `k` lowest bytes of a number, as the token program reads them.
abbrev pub le_bytes : ℕ → ℕ → List ℕ
le_bytes zero n = []
le_bytes (suc k) n = n % 256 ∷ le_bytes k (n / 256)

get_elem?-length {ℓ} :
    {A : Type ℓ} (front back : List A) (a : A)
    → get_elem? (front ++ a ∷ back) (length front) ≡ some a
get_elem?-length [] back a = refl
get_elem?-length (x ∷ front) back a = get_elem?-length front back a

shift_eight : (p : ℕ) → 2 ^ (p + 8) ≡ 256 * 2 ^ p
shift_eight p = simp towards_suc (omega arith)

next_power : (i : ℕ) → 2 ^ (suc i * 8) ≡ 256 * 2 ^ (i * 8)
next_power i =
    let e : suc i * 8 ≡ i * 8 + 8 = omega arith in ap (λ (k : ℕ). 2 ^ k) e ∙ shift_eight (i * 8)

-- One byte of a number and the rest of it, both shifted by `p`.
split_byte : (n p : ℕ) → n * p ≡ n % 256 * p + n / 256 * (256 * p)
split_byte n p = omega (arith, ap (λ (t : ℕ). t * p) (div-add-mod n 256))

read_rounds-le_bytes :
    (left n offset i value : ℕ) (front back : List ℕ)
    → n < 256 ^ left
    → offset + i ≡ length front
    → read_rounds left (front ++ (le_bytes left n ++ back)) offset i value ≡ value + n * 2 ^ (i * 8)
unfolding read_rounds
read_rounds-le_bytes zero n offset i value front back small at =
    let none : n ≡ 0 = omega arith in rw none (omega arith)
read_rounds-le_bytes (suc left) n offset i value front back small at =
    let rest = le_bytes left (n / 256) ++ back in
    let b : ℕ = n % 256 in
    let here : byte_at (front ++ b ∷ rest) (offset + i) ≡ b =
      ap (λ k. byte_at (front ++ b ∷ rest) k) at ∙ ap value_of (get_elem?-length front rest b) in
    let p : ℕ = 2 ^ (i * 8) in
    let later =
      read_rounds-le_bytes left (n / 256) offset (suc i) (value + b * p) (front ++ b ∷ []) back
        (omega arith) (omega (arith, length-append {0} front (b ∷ []))) in
    let same =
      ap (λ (d : ℕ). read_rounds left (front ++ b ∷ rest) offset (suc i) (value + d * p)) here
      ∙ ap (λ bytes. read_rounds left bytes offset (suc i) (value + b * p))
          (sym (append_assoc front (b ∷ []) rest))
      ∙ later in
    let adds : value + b * p + n / 256 * 2 ^ (suc i * 8) ≡ value + n * p =
      omega (arith, split_byte n p, ap (λ (t : ℕ). n / 256 * t) (next_power i)) in
    same ∙ adds

-- The eight bytes of a number below 2^64, the lowest first, are read back as that number wherever
-- they stand.
pub read_u64_le-le_bytes :
    (n : ℕ) (front back : List ℕ)
    → n < 2 ^ 64
    → read_u64_le (front ++ (le_bytes 8 n ++ back)) (length front) ≡ n
unfolding read_u64_le
read_u64_le-le_bytes n front back small =
    read_rounds-le_bytes 8 n (length front) 0 0 front back (omega arith) (omega arith) ∙ omega arith
