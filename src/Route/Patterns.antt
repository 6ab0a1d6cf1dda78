-- ===== src/Route/Patterns.antt =====
-- The regular expressions of the two numbered routes.
use go_resolver.Base.{
  Text, ◌≡◌, ◌≢◌, ◌↔◌, inl, inr, refl, ap, ◌∙◌, arith, false, some, Option-cases, [], ◌∷◌, ◌++◌,
  ===_iff, ===_refl, is_digit, Digits, strip_prefix, strip_prefix-append, strip_prefix-eq-some, ℕ,
}
use go_resolver.Route.{span_digits, match_tail, match_digits}

span_digits_sound :
    (s : Text) → Digits (span_digits s).0 × (s ≡ (span_digits s).0 ++ (span_digits s).1)
unfolding span_digits
span_digits_sound [] = (tt, refl)
span_digits_sound (c ∷ s) = ground (arith, span_digits_sound s)

span_digits-append :
    (ds : Text) (c : ℕ) (q : Text)
    → Digits ds
    → is_digit c ≡ false
    → span_digits (ds ++ c ∷ q) ≡ (ds, c ∷ q)
unfolding span_digits
span_digits-append [] c q h e = rw e refl
span_digits-append (d ∷ ds) c q (h, hs) e = rw (h, span_digits-append ds c q hs e) refl

match_tail-eq-some :
    (q : Text) (p : Text × Text) {ds : Text} → match_tail q p ≡ some ds → (p ≡ (ds, q)) × (ds ≢ [])
unfolding match_tail
match_tail-eq-some q ([], r) h = cc
match_tail-eq-some q (d ∷ ds, r) h = ground (arith, ===_iff r q)

match_digits_sound :
    (p : Text) (c : ℕ) (q s ds : Text)
    → match_digits p (c ∷ q) s ≡ some ds
    → (s ≡ p ++ (ds ++ c ∷ q)) × Digits ds × (ds ≢ [])
unfolding match_digits
match_digits_sound p c q s ds h = elim (Option-cases (strip_prefix p s)) [
  | inl missed ↦ absurd (cc (rw (missed, match_digits) at h))
  | inr (r, found) ↦
      let tail : match_tail (c ∷ q) (span_digits r) ≡ some ds = rw (found, match_digits) at h in
      let (cut, full) = match_tail-eq-some (c ∷ q) (span_digits r) {ds = ds} tail in
      let (digits, split) = span_digits_sound r in
      (
        strip_prefix-eq-some p s found ∙ ap (λ t. p ++ t) (rw cut at split),
        (rw cut at digits),
        full,
      )
]

match_tail_full : (q ds : Text) → ds ≢ [] → match_tail q (ds, q) ≡ some ds
unfolding match_tail
match_tail_full q [] h = absurd (h refl)
match_tail_full q (d ∷ ds) h = rw (===_refl q) refl

-- The match succeeds exactly on the prefix, a non-empty run of digits and the suffix.
pub match_digits_iff :
    (p : Text) (c : ℕ) (q s ds : Text)
    → is_digit c ≡ false
    → (match_digits p (c ∷ q) s ≡ some ds) ↔ ((s ≡ p ++ (ds ++ c ∷ q)) × Digits ds × (ds ≢ []))
unfolding match_digits
match_digits_iff p c q s ds e = (
  match_digits_sound p c q s ds,
  λ (shape, digits, full).
      rw (shape, match_digits, strip_prefix-append, span_digits-append ds c q digits e)
        (match_tail_full (c ∷ q) ds full),
)
