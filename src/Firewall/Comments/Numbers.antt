-- ===== src/Firewall/Comments/Numbers.antt =====
-- The numbers that a deletion reads out of the listing are those of the rules with the comment.
use go_resolver.Base.{
  Text, ℕ, zero, ◌+◌, ◌<◌, suc, ◌≡◌, ◌≢◌, refl, ap, ◌∙◌, arith, false, none, some, List, [], ◌∷◌,
  ◌++◌, decimal, All, length, strip_prefix, if◌then◌else◌, if_ind, is_digit, decimal-Digits,
  decimal-Lacks_other,
}
use go_resolver.Base.Int.{int64_limit}
use go_resolver.Base.Search.{includes, includes-Lacks}
use go_resolver.Base.Trim.{Dense, trim_start}
use go_resolver.Update.Numbers.{is_go_space, atoi}
use go_resolver.Update.Numbers.Bounds.{atoi-decimal, decimal-ne-nil, Digits-Dense}
use go_resolver.Firewall.{pad, Listed}
use go_resolver.Firewall.Comments.{
  take_word, first_field, positive, line_number, matching_numbers, sort_down,
}
use go_resolver.Firewall.Comments.Sorting.{sort_down-least}

take_word-Dense : (s rest : Text) → Dense is_go_space s → take_word (s ++ (b' ' ∷ rest)) ≡ s
unfolding take_word is_go_space
take_word-Dense [] rest h = refl
take_word-Dense (c ∷ s) rest (d, h) = rw d (ap (λ t. c ∷ t) (take_word-Dense s rest h))

first_field-Dense :
    (s rest : Text) → s ≢ [] → Dense is_go_space s → first_field (s ++ (b' ' ∷ rest)) ≡ some s
unfolding first_field trim_start
first_field-Dense [] rest full h = absurd (full refl)
first_field-Dense (c ∷ s) rest full (d, h) =
    rw (d, first_field) (ap some (take_word-Dense (c ∷ s) rest (d, h)))

-- A line that begins with a number has that number.
line_number-decimal :
    (n : ℕ) (rest : Text)
    → suc n < int64_limit
    → line_number (decimal (suc n) ++ (b' ' ∷ rest)) ≡ some (suc n)
unfolding line_number
line_number-decimal n rest h =
    let digits = decimal (suc n) in
    ap (λ f. elim f [ none ↦ none | some field ↦ positive (atoi field) ])
      (first_field-Dense digits rest (decimal-ne-nil (suc n))
        (Digits-Dense digits (decimal-Digits (suc n))))
    ∙ ap positive (atoi-decimal (suc n) h)

module _ (comment : Text) where
  -- The numbers, from `n` on, of the rules with the comment.
  unfoldable pub places : ℕ → List Text → List ℕ
  places n [] = []
  places n (rule ∷ rules) =
      let rest = places (suc n) rules in if includes rule comment then n ∷ rest else rest

  places_above : (k n : ℕ) (rules : List Text) → k < n → All (λ m. k < m) (places n rules)
  unfolding places
  places_above k n [] h = tt
  places_above k n (rule ∷ rules) h =
      if_ind (All (λ m. k < m)) (includes rule comment) _ _
        (λ _. (h, places_above k (suc n) rules (omega arith)))
        (λ _. places_above k (suc n) rules (omega arith))

  -- The last place comes first.
  pub sort_down-places :
      (n : ℕ) (rule : Text) (rules : List Text)
      → sort_down (places n (rule ∷ rules)) ≡ (
          if includes rule comment
          then sort_down (places (suc n) rules) ++ n ∷ []
          else sort_down (places (suc n) rules))
  unfolding places
  sort_down-places n rule rules =
      ground (
        arith,
        sort_down-least n (places (suc n) rules) (places_above n (suc n) rules (omega arith)),
      )

module _ (c : ℕ) (text : Text) (solid : is_digit c ≡ false) (dark : b' ' ≢ c) where
  includes-pad : (k : ℕ) (rule : Text) → includes (pad k rule) (c ∷ text) ≡ includes rule (c ∷ text)
  unfolding pad
  includes-pad zero rule = refl
  includes-pad (suc k) rule =
      includes-Lacks c text (b' ' ∷ []) (pad k rule) (dark, tt) ∙ includes-pad k rule

  -- The number of a line does not hide or fake a comment, and neither do the spaces behind it.
  includes-numbered :
      (n k : ℕ) (rule : Text)
      → includes (decimal n ++ (b' ' ∷ pad k rule)) (c ∷ text) ≡ includes rule (c ∷ text)
  unfolding pad
  includes-numbered n k rule =
      includes-Lacks c text (decimal n) (b' ' ∷ pad k rule) (decimal-Lacks_other c n solid)
      ∙ includes-pad (suc k) rule

  -- Each rule has its place.
  pub matching_numbers-Listed :
      (n : ℕ) (rules lines : List Text)
      → suc n + length rules < int64_limit
      → Listed (suc n) rules lines
      → matching_numbers (c ∷ text) (lines ++ ([] ∷ [])) ≡ places (c ∷ text) (suc n) rules
  unfolding matching_numbers Listed places includes strip_prefix
  matching_numbers-Listed n [] lines h e = ap (λ l. matching_numbers (c ∷ text) (l ++ ([] ∷ []))) e
  matching_numbers-Listed n (rule ∷ rules) lines h (k, rest, e, listed) =
      ap (λ l. matching_numbers (c ∷ text) (l ++ ([] ∷ []))) e
      ∙ rw
          (
            includes-numbered (suc n) k rule,
            line_number-decimal n (pad k rule) (omega arith),
            matching_numbers-Listed (suc n) rules rest (omega arith) listed,
          )
          refl

  -- Headings have no number.
  pub matching_numbers-heading :
      (heading lines : List Text)
      → All (λ line. line_number line ≡ none) heading
      → matching_numbers (c ∷ text) (heading ++ lines) ≡ matching_numbers (c ∷ text) lines
  unfolding matching_numbers
  matching_numbers-heading [] lines h = refl
  matching_numbers-heading (line ∷ heading) lines (bare, h) =
      rw (bare, matching_numbers-heading heading lines h)
        (if_ind (λ ns. ns ≡ matching_numbers (c ∷ text) lines) (includes line (c ∷ text)) _ _
          (λ _. refl) (λ _. refl))
