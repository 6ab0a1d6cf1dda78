-- ===== src/Analytics/Format.antt =====
-- `formatBytes`: the number of bytes in the largest unit that it reaches. The division by 1024 is exact,
-- and `toFixed` rounds an exact half up, so the numbers are fractions of natural numbers here.
pub mod Rounding
use go_resolver.Base.{
  Text, ℕ, zero, suc, ◌+◌, ◌*◌, ◌/◌, ◌%◌, ◌||◌, ◌∷◌, ◌++◌, codes, decimal, ◌==◌, leb, if◌then◌else◌,
}

-- The size of the unit `i`.
unfoldable pub unit_size : ℕ → ℕ
unit_size zero = 1
unit_size (suc i) = 1024 * unit_size i

-- `units[i]`
unfoldable pub unit_name : ℕ → Text
unit_name zero = codes "B"
unit_name (suc zero) = codes "KB"
unit_name (suc (suc zero)) = codes "MB"
unit_name (suc (suc (suc zero))) = codes "GB"
unit_name (suc (suc (suc (suc _)))) = codes "TB"

-- The loop: from the unit `i` on, with `left` units behind it.
unfoldable pub unit_from : ℕ → ℕ → ℕ → ℕ
unfolding unit_size
unit_from zero i value = i
unit_from (suc left) i value =
    let rest = unit_from left (suc i) value in if leb (1024 * unit_size i) value then rest else i

-- `(value / size).toFixed(0)` and, in tenths, `(value / size).toFixed(1)`.
unfoldable pub rounded : ℕ → ℕ → ℕ
rounded value size = (2 * value + size) / (2 * size)

-- The number in the unit `i`.
unfoldable pub in_unit : ℕ → ℕ → Text
unfolding rounded unit_size unit_name
in_unit i value =
    let whole = decimal (rounded value (unit_size i)) in
    let tenths = rounded (10 * value) (unit_size i) in
    (if leb (10 * unit_size i) value || i == 0
      then whole
      else decimal (tenths / 10) ++ codes "." ++ decimal (tenths % 10))
    ++ codes " "
    ++ unit_name i

unfoldable pub format_bytes : ℕ → Text
unfolding unit_from in_unit
format_bytes value = if value == 0 then codes "0 B" else in_unit (unit_from 4 0 value) value
