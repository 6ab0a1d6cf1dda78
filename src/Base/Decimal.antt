-- ===== src/Base/Decimal.antt =====
-- `String(n)` for a natural number.
pub mod RoundTrip
use Prim.Native.Nat.{ℕ, zero, suc, ◌+◌, ◌-◌, ◌*◌, ◌/◌, ◌%◌}
use mathlib.Core.Path.{◌≡◌, refl}
use mathlib.Core.Bool.{true, false}
use mathlib.Core.List.{[], ◌∷◌}
use native.Mathlib.Omega.{arith}
use go_resolver.Base.Core.{◌==◌, if◌then◌else◌}
use go_resolver.Base.Strings.{Text, codes, Digits, Lacks, is_digit}

-- The digits of `n` in front of `out`, one in each round.
emit : ℕ → ℕ → Text → Text
emit zero n out = out
emit (suc rounds) n out =
    let rest = emit rounds (n / 10) ((b'0' + n % 10) ∷ out) in if n == 0 then out else rest

unfoldable pub decimal : ℕ → Text
unfolding emit
decimal n = if n == 0 then codes "0" else emit n n []

digit-is_digit : (n : ℕ) → is_digit (b'0' + n % 10) ≡ true
digit-is_digit n = ground arith

emit-Digits : (rounds n : ℕ) (out : Text) → Digits out → Digits (emit rounds n out)
unfolding emit
emit-Digits zero n out h = h
emit-Digits (suc rounds) n out h =
    ground (arith, emit-Digits rounds (n / 10) ((b'0' + n % 10) ∷ out) (digit-is_digit n, h))

-- The value of a run of digits, read from the left behind `acc`.
unfoldable pub value_from : ℕ → Text → ℕ
value_from acc [] = acc
value_from acc (c ∷ s) = value_from (acc * 10 + (c - b'0')) s

unfoldable pub value : Text → ℕ
unfolding value_from
value s = value_from 0 s

pub decimal-Digits : (n : ℕ) → Digits (decimal n)
unfolding decimal
decimal-Digits n = ground (arith, emit-Digits n n [] tt)

Digits-Lacks : (c : ℕ) (s : Text) → is_digit c ≡ false → Digits s → Lacks c s
Digits-Lacks c [] other h = tt
Digits-Lacks c (d ∷ s) other (digit, h) = (λ e. cc, Digits-Lacks c s other h)

-- What is no digit does not stand in a number.
pub decimal-Lacks_other : (c n : ℕ) → is_digit c ≡ false → Lacks c (decimal n)
decimal-Lacks_other c n other = Digits-Lacks c (decimal n) other (decimal-Digits n)

-- No colon stands in a number.
pub decimal-Lacks : (n : ℕ) → Lacks b':' (decimal n)
decimal-Lacks n = decimal-Lacks_other b':' n refl
