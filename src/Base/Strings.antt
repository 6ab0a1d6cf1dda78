-- ===== src/Base/Strings.antt =====
-- JavaScript strings: lists of UTF-16 code units.
use Prim.Native.Nat.{ℕ}
use Prim.Native.Char.{code}
use Prim.Native.String.{String}
use mathlib.Core.Path.{◌≡◌, refl, subst}
use mathlib.Core.Logic.{◌≢◌, ◌↔◌}
use mathlib.Core.Bool.{Bool, true, false, ◌&&◌}
use mathlib.Core.Option.{Option, none, some}
use mathlib.Core.List.{List, [], ◌∷◌, ◌++◌}
use native.Mathlib.Omega.{arith}
use go_resolver.Base.Core.{leb, ◌==◌, if◌then◌else◌, All, All-append_right}

abbrev pub Text : Type 0
Text = List ℕ

-- A literal; the literals of the program that are modelled are ASCII.
abbrev pub codes : String → Text
codes String.[] = []
codes (String.◌∷◌ c s) = code c ∷ codes s

-- `===` on strings.
infix 50 ◌===◌
unfoldable pub ◌===◌ : Text → Text → Bool
[] === [] = true
[] === (_ ∷ _) = false
(_ ∷ _) === [] = false
(a ∷ s) === (b ∷ t) = (a == b) && (s === t)

pub ===_iff : (s t : Text) → ((s === t) ≡ true) ↔ (s ≡ t)
unfolding ◌===◌
===_iff [] [] = ground arith
===_iff [] (b ∷ t) = ground arith
===_iff (a ∷ s) [] = ground arith
===_iff (a ∷ s) (b ∷ t) = ground (arith, ===_iff s t)

pub ===_refl : (s : Text) → (s === s) ≡ true
===_refl s = (===_iff s s).1 refl

pub ===_ne : (s t : Text) → s ≢ t → (s === t) ≡ false
===_ne s t h = ground (arith, ===_iff s t)

-- Two texts that `===` tells apart.
pub ===_apart : {s t : Text} → (s === t) ≡ false → s ≢ t
===_apart {s} {t} h e = ground (arith, ===_iff s t)

-- A non-empty string is truthy.
abbrev pub truthy : Text → Bool
truthy [] = false
truthy (_ ∷ _) = true

-- `s || fallback`
abbrev pub or_text : Text → Text → Text
or_text [] fallback = fallback
or_text (c ∷ s) fallback = c ∷ s

-- No code unit of a text is `c`.
abbrev pub Lacks : ℕ → Text → Type 0
Lacks c = All (λ d. d ≢ c)

-- `s.startsWith(prefix)`, with what follows the prefix.
unfoldable pub strip_prefix : Text → Text → Option Text
strip_prefix [] s = some s
strip_prefix (a ∷ p) [] = none
strip_prefix (a ∷ p) (b ∷ s) = if a == b then strip_prefix p s else none

pub strip_prefix-append : (p s : Text) → strip_prefix p (p ++ s) ≡ some s
unfolding strip_prefix
strip_prefix-append [] s = refl
strip_prefix-append (a ∷ p) s = ground (arith, strip_prefix-append p s)

pub strip_prefix-eq-some : (p s : Text) {r : Text} → strip_prefix p s ≡ some r → s ≡ p ++ r
unfolding strip_prefix
strip_prefix-eq-some [] s h = ground arith
strip_prefix-eq-some (a ∷ p) [] h = cc
strip_prefix-eq-some (a ∷ p) (b ∷ s) {r} h = ground (arith, strip_prefix-eq-some p s {r = r})

-- `\d` of a regular expression.
abbrev pub is_digit : ℕ → Bool
is_digit c = leb b'0' c && leb c b'9'

abbrev pub Digits : Text → Type 0
Digits = All (λ c. is_digit c ≡ true)

-- Two texts cut at the first `c`.
pub append_cut :
    (c : ℕ) (s t u v : Text) → Lacks c s → Lacks c t → s ++ c ∷ u ≡ t ++ c ∷ v → (s ≡ t) × (u ≡ v)
append_cut c [] [] u v hs ht e = ground arith
append_cut c [] (b ∷ t) u v hs ht e = ground arith
append_cut c (a ∷ s) [] u v hs ht e = ground arith
append_cut c (a ∷ s) (b ∷ t) u v hs ht e = ground (arith, append_cut c s t u v)

not-Lacks : (c : ℕ) (t v : Text) → Lacks c (t ++ c ∷ v) → ⊥
not-Lacks c t v h = (All-append_right (λ d. d ≢ c) t (c ∷ v) h).0 refl

-- Two texts cut at the last `c`.
pub append_cut_last :
    (c : ℕ) (s t u v : Text) → Lacks c u → Lacks c v → s ++ c ∷ u ≡ t ++ c ∷ v → (s ≡ t) × (u ≡ v)
append_cut_last c [] [] u v hu hv e = ground arith
append_cut_last c [] (b ∷ t) u v hu hv e = absurd (not-Lacks c t v (subst (Lacks c) (cc) hu))
append_cut_last c (a ∷ s) [] u v hu hv e = absurd (not-Lacks c s u (subst (Lacks c) (cc) hv))
append_cut_last c (a ∷ s) (b ∷ t) u v hu hv e = ground (arith, append_cut_last c s t u v)

-- `s || ""` for an optional text.
abbrev pub text_or_empty : Option Text → Text
text_or_empty none = []
text_or_empty (some t) = t

-- `b ? "1" : "0"`
abbrev pub flag : Bool → Text
flag true = codes "1"
flag false = codes "0"
