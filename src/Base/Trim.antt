-- ===== src/Base/Trim.antt =====
-- Taking white space off the two ends of a text.
use Prim.Native.Nat.{ℕ}
use mathlib.Core.Path.{◌≡◌, refl}
use mathlib.Core.Bool.{Bool, false}
use mathlib.Core.List.{[], ◌∷◌, reverse, reverse-reverse, reverse-cons}
use go_resolver.Base.Core.{if◌then◌else◌, All, All-append}
use go_resolver.Base.Strings.{Text}

module _ (space : ℕ → Bool) where
  unfoldable pub trim_start : Text → Text
  trim_start [] = []
  trim_start (c ∷ s) = let rest = trim_start s in if space c then rest else c ∷ s

  unfoldable pub trim_by : Text → Text
  unfolding trim_start
  trim_by s = reverse (trim_start (reverse (trim_start s)))

  abbrev pub Dense : Text → Type 0
  Dense = All (λ c. space c ≡ false)

  trim_start_fixed : (s : Text) → Dense s → trim_start s ≡ s
  unfolding trim_start
  trim_start_fixed [] h = refl
  trim_start_fixed (c ∷ s) (h, k) = rw h refl

  Dense-reverse : (s : Text) → Dense s → Dense (reverse s)
  Dense-reverse [] h = tt
  Dense-reverse (c ∷ s) (h, k) =
      rw (reverse-cons c s)
        (All-append (λ d. space d ≡ false) (reverse s) (c ∷ []) (Dense-reverse s k) (h, tt))

  -- A text without white space stays.
  pub trim_by_fixed : (s : Text) → Dense s → trim_by s ≡ s
  unfolding trim_by
  trim_by_fixed s h =
      rw (trim_start_fixed s h, trim_start_fixed (reverse s) (Dense-reverse s h))
        (reverse-reverse s)
