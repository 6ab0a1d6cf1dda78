-- ===== src/Update/Numbers/Bounds.antt =====
-- What `atoiOrZero` gives: always a 64-bit integer, and the number itself for digits in the range.
use go_resolver.Base.{
  Text, ℕ, zero, suc, ◌+◌, ◌-◌, ◌*◌, ◌≤◌, ◌<◌, ◌≡◌, ◌≢◌, ◌⊎◌, inl, inr, refl, sym, ap, ◌∙◌, arith,
  Bool, Bool-cases, true, false, [], ◌∷◌, ◌==◌, ltb, if◌then◌else◌, if_ind, is_digit, Digits,
  decimal, value, decimal-Digits,
}
use go_resolver.Base.Decimal.{value_from}
use go_resolver.Base.Decimal.RoundTrip.{value-decimal}
use go_resolver.Base.Int.{pos, signed, int64_limit, uint64_limit, IsInt64}
use go_resolver.Base.Trim.{Dense, trim_by_fixed}
use go_resolver.Update.Numbers.{
  is_go_space, trim_space, Parsed, number, range, syntax, parse_uint_from, parse_uint, clip, atoi,
  atoi_or_zero,
}

signed-IsInt64 : (minus : Bool) (n : ℕ) → n < int64_limit → IsInt64 (signed minus n)
signed-IsInt64 false n h = h
signed-IsInt64 true zero h = h
signed-IsInt64 true (suc n) h = omega arith

clip-IsInt64 : (minus : Bool) (p : Parsed) → IsInt64 (clip minus p)
unfolding clip
clip-IsInt64 minus (number n) = elim (Bool-cases (ltb n int64_limit)) [
  | inl y ↦ rw (y, clip) (signed-IsInt64 minus n (ground arith))
  | inr z ↦ rw (z, clip) (if_ind IsInt64 minus _ _ (λ _. omega arith) (λ _. omega arith))
]
clip-IsInt64 true range = omega arith
clip-IsInt64 false range = omega arith
clip-IsInt64 _ syntax = omega arith

atoi-IsInt64 : (s : Text) → IsInt64 (atoi s)
unfolding atoi
atoi-IsInt64 [] = omega arith
atoi-IsInt64 (c ∷ s) =
    if_ind IsInt64 (c == b'-') _ _ (λ _. clip-IsInt64 true (parse_uint s))
      (λ _.
        if_ind IsInt64 (c == b'+') _ _ (λ _. clip-IsInt64 false (parse_uint s))
          (λ _. clip-IsInt64 false (parse_uint (c ∷ s))))

-- Whatever the text, the value is a 64-bit integer.
pub atoi_or_zero-IsInt64 : (raw : Text) → IsInt64 (atoi_or_zero raw)
unfolding atoi_or_zero
atoi_or_zero-IsInt64 raw = atoi-IsInt64 (trim_space raw)

ltb_ge : (a b : ℕ) → ltb a b ≡ false → b ≤ a
ltb_ge a b h = ground arith

value_from-le : (acc : ℕ) (s : Text) → acc ≤ value_from acc s
unfolding value_from
value_from-le acc [] = omega arith
value_from-le acc (c ∷ s) = omega (arith, value_from-le (acc * 10 + (c - b'0')) s)

-- Digits, read as they stand or found too large.
parse_uint_from-Digits :
    (acc : ℕ) (s : Text)
    → Digits s
    → acc < uint64_limit
    → ((parse_uint_from acc s ≡ number (value_from acc s)) × (value_from acc s < uint64_limit))
      ⊎ ((parse_uint_from acc s ≡ range) × (uint64_limit ≤ value_from acc s))
unfolding parse_uint_from value_from
parse_uint_from-Digits acc [] h k = inl (refl, k)
parse_uint_from-Digits acc (c ∷ s) (d, h) k =
    elim (Bool-cases (ltb (acc * 10 + (c - b'0')) uint64_limit)) [
      | inl y ↦
          rw (d, y, parse_uint_from)
            (parse_uint_from-Digits (acc * 10 + (c - b'0')) s h (ground arith))
      | inr n ↦
          rw (d, n, parse_uint_from)
            (inr (
              refl,
              omega (
                arith,
                value_from-le (acc * 10 + (c - b'0')) s,
                ltb_ge (acc * 10 + (c - b'0')) uint64_limit n,
              ),
            ))
    ]

-- A number cut to the largest 64-bit integer.
abbrev pub cut : ℕ → ℕ
cut n = if ltb n int64_limit then n else int64_limit - 1

clip-cut :
    (p : Parsed) (n : ℕ)
    → ((p ≡ number n) × (n < uint64_limit)) ⊎ ((p ≡ range) × (uint64_limit ≤ n))
    → clip false p ≡ pos (cut n)
unfolding clip
clip-cut p n (inl (e, h)) = rw e (ground arith)
clip-cut p n (inr (e, h)) = rw e (ground arith)

atoi-Digits : (s : Text) → s ≢ [] → Digits s → atoi s ≡ pos (cut (value s))
unfolding atoi parse_uint value
atoi-Digits [] full h = absurd (full refl)
atoi-Digits (c ∷ s) full (d, h) =
    let minus : (c == b'-') ≡ false = ground arith in
    let plus : (c == b'+') ≡ false = ground arith in
    rw (minus, plus, atoi)
      (clip-cut (parse_uint_from 0 (c ∷ s)) (value_from 0 (c ∷ s))
        (parse_uint_from-Digits 0 (c ∷ s) (d, h) (omega arith)))

digit-dense : (c : ℕ) → is_digit c ≡ true → is_go_space c ≡ false
unfolding is_go_space
digit-dense c h = ground arith

pub Digits-Dense : (s : Text) → Digits s → Dense is_go_space s
Digits-Dense [] h = tt
Digits-Dense (c ∷ s) (d, h) = (digit-dense c d, Digits-Dense s h)

pub trim_space-Digits : (s : Text) → Digits s → trim_space s ≡ s
unfolding trim_space
trim_space-Digits s h = trim_by_fixed is_go_space s (Digits-Dense s h)

-- Digits are read as their number, or as the largest 64-bit integer if that is smaller.
pub atoi_or_zero-Digits : (s : Text) → s ≢ [] → Digits s → atoi_or_zero s ≡ pos (cut (value s))
unfolding atoi_or_zero
atoi_or_zero-Digits s full h = rw (trim_space-Digits s h) (atoi-Digits s full h)

not_zero : decimal 0 ≢ []
unfolding decimal
not_zero e = cc

value_zero : (n : ℕ) → decimal n ≡ [] → n ≡ 0
unfolding value
value_zero n e = sym (value-decimal n) ∙ ap value e

pub decimal-ne-nil : (n : ℕ) → decimal n ≢ []
decimal-ne-nil n e = not_zero (sym (ap decimal (value_zero n e)) ∙ e)

-- A number of the form, written by `String(n)`, is read back.
pub atoi_or_zero-decimal : (n : ℕ) → n < int64_limit → atoi_or_zero (decimal n) ≡ pos n
atoi_or_zero-decimal n h =
    atoi_or_zero-Digits (decimal n) (decimal-ne-nil n) (decimal-Digits n)
    ∙ ap (λ k. pos (cut k)) (value-decimal n)
    ∙ ground arith

pub atoi-decimal : (n : ℕ) → n < int64_limit → atoi (decimal n) ≡ pos n
atoi-decimal n h =
    atoi-Digits (decimal n) (decimal-ne-nil n) (decimal-Digits n)
    ∙ ap (λ k. pos (cut k)) (value-decimal n)
    ∙ ground arith
