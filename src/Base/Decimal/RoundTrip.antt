-- ===== src/Base/Decimal/RoundTrip.antt =====
-- The digits that `String(n)` writes read back as `n`.
use go_resolver.Base.Core.{◌==◌, Bool-cases}
use go_resolver.Base.Strings.{Text}
use go_resolver.Base.Decimal.{emit, decimal, value_from, value}
use Prim.Native.Nat.{ℕ, zero, suc, ◌+◌, ◌*◌, ◌-◌, ◌/◌, ◌%◌, ◌≤◌}
use mathlib.Core.Path.{◌≡◌, refl, ◌∙◌, ap}
use mathlib.Core.List.{[], ◌∷◌}
use mathlib.Core.Logic.{inl, inr}
use native.Mathlib.Omega.{arith}

value_from-emit :
    (rounds n : ℕ) (out : Text) → n ≤ rounds → value_from 0 (emit rounds n out) ≡ value_from n out
unfolding emit value_from
value_from-emit zero n out h = let e : n ≡ 0 = omega arith in rw e refl
value_from-emit (suc rounds) n out h = elim (Bool-cases (n == 0)) [
  | inl e ↦ let z : n ≡ 0 = ground arith in rw (z, emit) refl
  | inr e ↦
      let back : n / 10 * 10 + (b'0' + n % 10 - b'0') ≡ n = omega arith in
      rw (e, emit)
        (value_from-emit rounds (n / 10) ((b'0' + n % 10) ∷ out) (ground arith)
          ∙ ap (λ (m : ℕ). value_from m out) back)
]

pub value-decimal : (n : ℕ) → value (decimal n) ≡ n
unfolding value decimal
value-decimal n = ground (arith, value_from-emit n n [])
