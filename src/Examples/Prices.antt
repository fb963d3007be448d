-- ===== src/Examples/Prices.antt =====
-- Two prices in micro-units.
use ghost_bazaar.Prelude.{◌*◌, ◌≤◌, ◌<◌, ◌≡◌, refl, arith, ◌++◌, some}
use ghost_bazaar.Prelude.Text.{codes}
use ghost_bazaar.Core.Amounts.{normalize_parts, is_decimal, all_digits, read_digits, fit}
use ghost_bazaar.Core.Amounts.Exactness.{
  power_of_ten, normalize_parts_exact, normalize_parts_truncated,
}

exact_price : normalize_parts 6 (codes "12", some (codes "50")) ≡ some 12500000
unfolding normalize_parts is_decimal all_digits read_digits fit
exact_price = refl

normalize_parts_exact_example :
    12500000 * power_of_ten 2 ≡ read_digits 0 (codes "12" ++ codes "50") * power_of_ten 6
normalize_parts_exact_example =
    normalize_parts_exact 6 (codes "12") (codes "50") 12500000 exact_price (omega arith)

long_price : normalize_parts 6 (codes "0", some (codes "12345678")) ≡ some 123456
unfolding normalize_parts is_decimal all_digits read_digits fit
long_price = refl

normalize_parts_truncated_example :
    (123456 * power_of_ten 2 ≤ read_digits 0 (codes "0" ++ codes "12345678"))
    × (read_digits 0 (codes "0" ++ codes "12345678") < 123457 * power_of_ten 2)
normalize_parts_truncated_example =
    normalize_parts_truncated 6 2 (codes "0") (codes "12345678") 123456 long_price refl
