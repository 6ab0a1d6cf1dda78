-- ===== src/Base/Search.antt =====
-- Looking for a text within a text: `includes` of JavaScript, and `strings.Contains` of Go.
use Prim.Native.Nat.{ℕ}
use mathlib.Core.Path.{◌≡◌, refl, ap₂}
use mathlib.Core.Logic.{◌≢◌}
use mathlib.Core.Bool.{Bool, true, false, ◌||◌}
use mathlib.Core.Option.{none, some}
use mathlib.Core.List.{[], ◌∷◌, ◌++◌}
use native.Mathlib.Omega.{arith}
use go_resolver.Base.Strings.{Text, Lacks, strip_prefix}

unfoldable pub is_prefix : Text → Text → Bool
is_prefix needle hay = elim (strip_prefix needle hay) [ none ↦ false | some _ ↦ true ]

-- `hay.includes(needle)`
unfoldable pub includes : Text → Text → Bool
unfolding is_prefix
includes [] needle = is_prefix needle []
includes (c ∷ hay) needle = is_prefix needle (c ∷ hay) || includes hay needle

is_prefix-other : (c d : ℕ) (s hay : Text) → d ≢ c → is_prefix (c ∷ s) (d ∷ hay) ≡ false
unfolding is_prefix strip_prefix
is_prefix-other c d s hay h = ground arith

-- What cannot begin the needle can be left out in front.
pub includes-Lacks :
    (c : ℕ) (s skipped hay : Text)
    → Lacks c skipped
    → includes (skipped ++ hay) (c ∷ s) ≡ includes hay (c ∷ s)
unfolding includes
includes-Lacks c s [] hay h = refl
includes-Lacks c s (d ∷ skipped) hay (h, k) =
    ap₂ (λ a b. a || b) (is_prefix-other c d s (skipped ++ hay) h)
      (includes-Lacks c s skipped hay k)

is_prefix-append : (s t hay : Text) → is_prefix (s ++ t) hay ≡ true → is_prefix s hay ≡ true
unfolding is_prefix strip_prefix
is_prefix-append [] t hay h = refl
is_prefix-append (a ∷ s) t [] h = cc
is_prefix-append (a ∷ s) t (b ∷ hay) h = ground (arith, is_prefix-append s t hay)

-- A text that includes a needle includes every beginning of it.
pub includes-append : (hay s t : Text) → includes hay (s ++ t) ≡ true → includes hay s ≡ true
unfolding includes
includes-append [] s t h = is_prefix-append s t [] h
includes-append (c ∷ hay) s t h =
    ground (arith, is_prefix-append s t (c ∷ hay), includes-append hay s t)
