-- ===== src/Analytics/Callbacks/Applied.antt =====
-- What `applyFilters` and the quick search do to the filters.
use go_resolver.Base.{
  if_ind, Text, ℕ, zero, suc, ◌+◌, ◌≤◌, ◌≡◌, ◌≢◌, refl, arith, Bool, true, false, not, [], ◌∷◌,
  ===_refl, Digits, length, is_digit, Bool-cases, inl, inr,
}
use mathlib.Core.Path.{subst, sym}
use go_resolver.Analytics.Filters.{Filters}
use go_resolver.Analytics.Callbacks.{
  FilterState, same_flag, digits_only, slice_to, same_filters, next_filters, apply_filters,
}

digits_only-Digits : (s : Text) → Digits (digits_only s)
unfolding digits_only
digits_only-Digits [] = tt
digits_only-Digits (c ∷ s) = ground (arith, digits_only-Digits s)

digits_only_fixed : (s : Text) → Digits s → digits_only s ≡ s
unfolding digits_only
digits_only_fixed [] h = refl
digits_only_fixed (c ∷ s) (d, h) = rw (d, digits_only_fixed s h) refl

slice_to-Digits : (n : ℕ) (s : Text) → Digits s → Digits (slice_to n s)
unfolding slice_to
slice_to-Digits zero s h = tt
slice_to-Digits (suc n) [] h = tt
slice_to-Digits (suc n) (c ∷ s) (d, h) = (d, slice_to-Digits n s h)

length-slice_to : (n : ℕ) (s : Text) → length (slice_to n s) ≤ n
unfolding slice_to
length-slice_to zero s = omega arith
length-slice_to (suc n) [] = omega arith
length-slice_to (suc n) (c ∷ s) = omega (arith, length-slice_to n s)

slice_to_fixed : (n : ℕ) (s : Text) → length s ≤ n → slice_to n s ≡ s
unfolding slice_to
slice_to_fixed zero [] h = refl
slice_to_fixed zero (c ∷ s) h = absurd (omega arith)
slice_to_fixed (suc n) [] h = refl
slice_to_fixed (suc n) (c ∷ s) h = rw (slice_to_fixed n s (omega arith)) refl

-- The first digits of a text, `n` at most, in their order.
pub data FirstDigits : ℕ → Text → Text → Type 0 where
  full : {s : Text} → FirstDigits 0 s []
  over : {n : ℕ} → FirstDigits n [] []
  digit :
      {n c : ℕ} {s t : Text}
      → is_digit c ≡ true
      → FirstDigits n s t
      → FirstDigits (suc n) (c ∷ s) (c ∷ t)
  other : {n c : ℕ} {s t : Text} → is_digit c ≡ false → FirstDigits n s t → FirstDigits n (c ∷ s) t

slice_to-zero : (s : Text) → slice_to 0 s ≡ []
unfolding slice_to
slice_to-zero [] = refl
slice_to-zero (c ∷ s) = refl

slice_to-FirstDigits : (n : ℕ) (s : Text) → FirstDigits n s (slice_to n (digits_only s))
unfolding slice_to digits_only
slice_to-FirstDigits zero s = subst (FirstDigits 0 s) (sym (slice_to-zero (digits_only s))) full
slice_to-FirstDigits (suc n) [] = over
slice_to-FirstDigits (suc n) (c ∷ s) = elim (Bool-cases (is_digit c)) [
  | inl y ↦ rw y (digit y (slice_to-FirstDigits n s))
  | inr k ↦ rw k (other k (slice_to-FirstDigits (suc n) s))
]

-- What `applyFilters` makes of the state.
pub record IsApplied (s t : FilterState) : Type 0 where
  pub draft : t.draft_filters ≡ s.draft_filters
  pub others : t.filters ≡ record s.draft_filters { status = t.filters.status }
  pub status : FirstDigits 3 s.draft_filters.status t.filters.status
  pub status_digits : Digits t.filters.status
  pub status_length : length t.filters.status ≤ 3
  pub status_kept :
      Digits s.draft_filters.status
      → length s.draft_filters.status ≤ 3
      → t.filters.status ≡ s.draft_filters.status
  pub closed : t.filter_opened ≡ false
  pub reloads : t.filters ≡ s.filters → t.reload_token ≡ s.reload_token + 1

same_flag_refl : (b : Bool) → same_flag b b ≡ true
unfolding same_flag
same_flag_refl true = refl
same_flag_refl false = refl

same_filters_refl : (f : Filters) → same_filters f f ≡ true
unfolding same_filters same_flag
same_filters_refl f =
    rw
      (
        ===_refl f.range,
        ===_refl f.from,
        ===_refl f.to,
        ===_refl f.host,
        ===_refl f.q,
        ===_refl f.filter,
        ===_refl f.method,
        ===_refl f.status,
        ===_refl f.status_class,
        ===_refl f.uri_contains,
        ===_refl f.ip_contains,
        ===_refl f.isp_contains,
      )
      (same_flag_refl f.exclude_internal_api)

-- The status of a draft, once cleaned.
module _ (f : Filters) where
  next_filters-Digits : Digits (next_filters f).status
  unfolding next_filters
  next_filters-Digits = slice_to-Digits 3 (digits_only f.status) (digits_only-Digits f.status)

  next_filters_kept : Digits f.status → length f.status ≤ 3 → (next_filters f).status ≡ f.status
  unfolding next_filters
  next_filters_kept d h = rw (digits_only_fixed f.status d) (slice_to_fixed 3 f.status h)

  taken : next_filters f ≡ record f { status = (next_filters f).status }
  unfolding next_filters
  taken = refl

  short : length (next_filters f).status ≤ 3
  unfolding next_filters
  short = length-slice_to 3 (digits_only f.status)

changed : (f g : Filters) → not (same_filters f g) ≡ true → g ≢ f
changed f g h e =
    let same : same_filters f g ≡ true =
      subst (λ x. same_filters f x ≡ true) (sym e) (same_filters_refl f) in
    ground (arith, same, h)

-- Applying takes over the draft with the first three digits of its status, or those that there are, and closes the dialog; if the filters do not change by that, the reload token is raised.
pub apply_filters-IsApplied : (s : FilterState) → IsApplied s (apply_filters s)
unfolding apply_filters next_filters
apply_filters-IsApplied s =
    let next = next_filters s.draft_filters in
    if_ind (IsApplied s) (not (same_filters s.filters next)) _ _
      (λ differs. record {
        draft = refl;
        others = taken s.draft_filters;
        status = slice_to-FirstDigits 3 s.draft_filters.status;
        status_digits = next_filters-Digits s.draft_filters;
        status_length = short s.draft_filters;
        status_kept = next_filters_kept s.draft_filters;
        closed = refl;
        reloads = λ e. absurd (changed s.filters next differs e);
      })
      (λ same. record {
        draft = refl;
        others = taken s.draft_filters;
        status = slice_to-FirstDigits 3 s.draft_filters.status;
        status_digits = next_filters-Digits s.draft_filters;
        status_length = short s.draft_filters;
        status_kept = next_filters_kept s.draft_filters;
        closed = refl;
        reloads = λ e. refl;
      })
