-- ===== src/Analytics/Format/Rounding.antt =====
-- The number that is shown is the number of bytes, rounded in its unit.
use go_resolver.Base.{
  Text, ℕ, zero, suc, ◌+◌, ◌*◌, ◌/◌, ◌%◌, ◌≤◌, ◌<◌, ◌≡◌, ◌≢◌, ◌⊎◌, inl, inr, Bool-cases, refl,
  arith, true, ◌||◌, ◌++◌, codes, decimal, ◌==◌, leb, if_ind,
}
use go_resolver.Analytics.Format.{unit_size, unit_name, unit_from, rounded, in_unit, format_bytes}

-- The unit `i` is the largest of those up to terabytes that `value` reaches.
pub record IsUnit (value i : ℕ) : Type 0 where
  pub known : i ≤ 4
  pub reached : unit_size i ≤ value
  pub largest : i < 4 → value < 1024 * unit_size i

-- `n` is `value / size`, rounded.
pub record IsNear (n value size : ℕ) : Type 0 where
  pub above : 2 * value < 2 * n * size + size
  pub below : 2 * n * size ≤ 2 * value + size

-- What is shown for a number of bytes: a whole number of a unit, from ten on or of bytes, and tenths below
-- ten.
pub data Shows (value : ℕ) : Text → Type 0 where
  whole :
      (i n : ℕ)
      → IsUnit value i
      → (10 * unit_size i ≤ value) ⊎ (i ≡ 0)
      → IsNear n value (unit_size i)
      → Shows value (decimal n ++ codes " " ++ unit_name i)
  tenths :
      (i n : ℕ)
      → IsUnit value i
      → value < 10 * unit_size i
      → i ≢ 0
      → IsNear n (10 * value) (unit_size i)
      → Shows value (decimal (n / 10) ++ codes "." ++ decimal (n % 10) ++ codes " " ++ unit_name i)

unit_size-suc : (i : ℕ) → unit_size (suc i) ≡ 1024 * unit_size i
unfolding unit_size
unit_size-suc i = refl

leb_le : (a b : ℕ) → leb a b ≡ true → a ≤ b
leb_le a b h = ground arith

unit_from-IsUnit :
    (left i value : ℕ) → i + left ≡ 4 → unit_size i ≤ value → IsUnit value (unit_from left i value)
unfolding unit_from unit_size
unit_from-IsUnit zero i value e h = record {
  known = omega arith;
  reached = h;
  largest = λ k. omega arith;
}
unit_from-IsUnit (suc left) i value e h =
    if_ind (IsUnit value) (leb (1024 * unit_size i) value) _ _
      (λ k.
        unit_from-IsUnit left (suc i) value (omega arith)
          (rw (unit_size-suc i) (leb_le (1024 * unit_size i) value k)))
      (λ k. record { known = omega arith; reached = h; largest = λ _. ground arith })

reaches : (value : ℕ) → value ≢ 0 → unit_size 0 ≤ value
unfolding unit_size
reaches value h = omega arith

rounded-IsNear : (value i : ℕ) → i ≤ 4 → IsNear (rounded value (unit_size i)) value (unit_size i)
unfolding rounded unit_size
rounded-IsNear value zero h = record { above = omega arith; below = omega arith }
rounded-IsNear value (suc zero) h = record { above = omega arith; below = omega arith }
rounded-IsNear value (suc (suc zero)) h = record { above = omega arith; below = omega arith }
rounded-IsNear value (suc (suc (suc zero))) h = record { above = omega arith; below = omega arith }
rounded-IsNear value (suc (suc (suc (suc zero)))) h = record {
  above = omega arith;
  below = omega arith;
}
rounded-IsNear value (suc (suc (suc (suc (suc i))))) h = absurd (omega arith)

many : (ten value i : ℕ) → (leb ten value || i == 0) ≡ true → (ten ≤ value) ⊎ (i ≡ 0)
many ten value i h = elim (Bool-cases (leb ten value)) [
  | inl y ↦ inl (ground arith)
  | inr n ↦ inr (ground arith)
]

in_unit-Shows : (i value : ℕ) → IsUnit value i → Shows value (in_unit i value)
unfolding in_unit
in_unit-Shows i value h =
    if_ind (λ t. Shows value (t ++ codes " " ++ unit_name i))
      (leb (10 * unit_size i) value || i == 0) (decimal (rounded value (unit_size i)))
      (decimal (rounded (10 * value) (unit_size i) / 10)
        ++ codes "."
        ++ decimal (rounded (10 * value) (unit_size i) % 10))
      (λ e.
        whole i (rounded value (unit_size i)) h (many (10 * unit_size i) value i e)
          (rounded-IsNear value i h.known))
      (λ e.
        tenths i (rounded (10 * value) (unit_size i)) h (ground arith) (λ k. ground arith)
          (rounded-IsNear (10 * value) i h.known))

-- A number of bytes that is not zero is shown in the largest unit that it reaches, rounded to a whole
-- number or, below ten of a unit above the byte, to a tenth.
pub format_bytes-Shows : (value : ℕ) → value ≢ 0 → Shows value (format_bytes value)
unfolding format_bytes
format_bytes-Shows value h =
    if_ind (Shows value) (value == 0) (codes "0 B") (in_unit (unit_from 4 0 value) value)
      (λ e. absurd (h (ground arith)))
      (λ _.
        in_unit-Shows (unit_from 4 0 value) value
          (unit_from-IsUnit 4 0 value refl (reaches value h)))
