-- ===== src/Core/Amounts.antt =====
-- packages/core/src/amounts.ts: decimal strings as integer micro-units. A string that the code
-- throws on is `none`.
pub mod Exactness
use ghost_bazaar.Prelude.{
  ℕ, zero, suc, ◌+◌, ◌*◌, ◌-◌, String, Bool, true, false, ◌&&◌, ◌==◌, List, [], ◌∷◌, ◌++◌, Option,
  none, some, ◌≡◌, refl, if◌then◌else◌,
}
use ghost_bazaar.Prelude.Text.{codes, is_digit}
use ghost_bazaar.Prelude.Dict.{Dict, lookup, insert}

-- `MINT_DECIMALS`, as the module declares it.
abbrev pub mainnet_usdc : String
mainnet_usdc = "EPjFWdd5AufqSSqeM2qN1xzybapC8G4wEGGkZwyTDt1v"

abbrev pub devnet_usdc : String
devnet_usdc = "4zMMC9srt5Ri5X14GAgXhaHii3GnPAEERYPJgZJDncDU"

abbrev pub mint_decimals : Dict ℕ
mint_decimals = (mainnet_usdc, 6) ∷ (devnet_usdc, 6) ∷ []

-- `registerMint`
unfoldable pub register_mint : String → ℕ → Dict ℕ → Dict ℕ
register_mint mint decimals table = insert mint decimals table

unfoldable pub all_digits : List ℕ → Bool
all_digits [] = true
all_digits (c ∷ cs) = is_digit c && all_digits cs

abbrev pub is_nonempty : List ℕ → Bool
is_nonempty [] = false
is_nonempty (c ∷ cs) = true

-- `split(".")` at the first point: the integer part, and the rest if there is a point.
unfoldable pub split_point : List ℕ → List ℕ × Option (List ℕ)
split_point [] = ([], none)
split_point (c ∷ cs) =
    let (int, rest) = split_point cs in if c == b'.' then ([], some cs) else (c ∷ int, rest)

-- The number that a list of digits reads as, on top of what was read before.
unfoldable pub read_digits : ℕ → List ℕ → ℕ
read_digits n [] = n
read_digits n (c ∷ cs) = read_digits (10 * n + (c - b'0')) cs

-- `padEnd(decimals, "0")` or `slice(0, decimals)`
unfoldable pub fit : ℕ → List ℕ → List ℕ
fit zero cs = []
fit (suc n) [] = b'0' ∷ fit n []
fit (suc n) (c ∷ cs) = c ∷ fit n cs

-- The test `/^\d+(\.\d+)?$/`, on the two parts.
unfoldable pub is_decimal : List ℕ × Option (List ℕ) → Bool
unfolding all_digits
is_decimal (int, none) = is_nonempty int && all_digits int
is_decimal (int, some frac) =
    is_nonempty int && all_digits int && (is_nonempty frac && all_digits frac)

abbrev pub fraction : Option (List ℕ) → List ℕ
fraction none = []
fraction (some frac) = frac

unfoldable pub normalize_parts : ℕ → List ℕ × Option (List ℕ) → Option ℕ
normalize_parts decimals (int, frac) =
    if is_decimal (int, frac)
    then some (read_digits 0 (int ++ fit decimals (fraction frac)))
    else none

unfoldable pub normalize_with_decimals : String → ℕ → Option ℕ
unfolding normalize_parts split_point
normalize_with_decimals s decimals = normalize_parts decimals (split_point (codes s))

unfoldable pub normalize_amount : String → String → Dict ℕ → Option ℕ
normalize_amount s mint table = elim (lookup mint table) [
  | none ↦ none
  | some decimals ↦ normalize_with_decimals s decimals
]

test_price : normalize_with_decimals "12.5" 6 ≡ some 12500000
unfolding normalize_with_decimals is_decimal read_digits fit
test_price = refl
