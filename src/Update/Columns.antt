-- ===== src/Update/Columns.antt =====
-- The values of one name in the entries of a list of rows, and what a loop reads from such columns.
use go_resolver.Base.{
  Text, ℕ, zero, suc, ◌+◌, ◌≤◌, ◌≡◌, refl, sym, ap, ap₂, ◌∙◌, arith, append-nil, Bool, true, false,
  ◌&&◌, Bool-cases, inl, inr, Option, none, some, List, [], ◌∷◌, ◌++◌, map, flat_map, ◌===◌,
  get_elem?, length, ltb, codes, if◌then◌else◌, All,
}
use go_resolver.Update.Submission.{Entries, checkbox}
use go_resolver.Update.Reading.{form_values, value_at, max_from, tabulate}

pub form_values-append :
    (name : Text) (s t : Entries)
    → form_values name (s ++ t) ≡ form_values name s ++ form_values name t
unfolding form_values
form_values-append name [] t = refl
form_values-append name ((key, value) ∷ s) t = ground (arith, form_values-append name s t)

pub form_values-checkbox :
    (name n : Text) (checked : Bool)
    → form_values name (checkbox n checked)
      ≡ (if (n === name) && checked then codes "1" ∷ [] else [])
unfolding form_values
form_values-checkbox name n true = ground arith
form_values-checkbox name n false = ground arith

module _ {A : Type 0} where
  pub form_values-flat_map :
      (name : Text) (f : A → Entries) (rows : List A)
      → form_values name (flat_map f rows) ≡ flat_map (λ r. form_values name (f r)) rows
  unfolding flat_map form_values
  form_values-flat_map name f [] = refl
  form_values-flat_map name f (r ∷ rows) =
      form_values-append name (f r) (flat_map f rows)
      ∙ ap (λ t. form_values name (f r) ++ t) (form_values-flat_map name f rows)

  pub flat_map-nil : {B : Type 0} (rows : List A) → flat_map {B = B} (λ r. []) rows ≡ []
  unfolding flat_map
  flat_map-nil [] = refl
  flat_map-nil (r ∷ rows) = flat_map-nil rows

  pub flat_map-one :
      {B : Type 0} (g : A → B) (rows : List A) → flat_map (λ r. g r ∷ []) rows ≡ map g rows
  unfolding flat_map
  flat_map-one g [] = refl
  flat_map-one g (r ∷ rows) = ap (λ t. g r ∷ t) (flat_map-one g rows)

  pub length-map : {B : Type 0} (g : A → B) (rows : List A) → length (map g rows) ≡ length rows
  length-map g [] = refl
  length-map g (r ∷ rows) = ap suc (length-map g rows)

  -- A column of rows, at the index of a row.
  pub value_at-map :
      (g : A → Text) (rows : List A) (i : ℕ) {r : A}
      → get_elem? rows i ≡ some r
      → value_at (map g rows) i ≡ g r
  unfolding value_at
  value_at-map g [] i h = cc
  value_at-map g (r ∷ rows) zero h = ground arith
  value_at-map g (r ∷ rows) (suc i) h = value_at-map g rows i h

  -- A loop that reads at each index what a row gives.
  pub tabulate-map :
      {B : Type 0} (g : A → B) (f : ℕ → B) (rows : List A) (i : ℕ)
      → ((j : ℕ) (r : A) → get_elem? rows j ≡ some r → f (i + j) ≡ g r)
      → tabulate (length rows) i f ≡ map g rows
  unfolding tabulate
  tabulate-map g f [] i h = refl
  tabulate-map g f (r ∷ rows) i h =
      let here : i ≡ i + 0 = omega arith in
      let later : (j : ℕ) → i + 1 + j ≡ i + suc j = λ j. omega arith in
      ap₂ (λ x xs. x ∷ xs) (ap f here ∙ h 0 r refl)
        (tabulate-map g f rows (i + 1) (λ j q e. ap f (later j) ∙ h (suc j) q e))

module _ {A : Type 0} (rows : List A) where
  max_from-map :
      (gs : List (A → Text)) → max_from (length rows) (map (λ g. map g rows) gs) ≡ length rows
  unfolding max_from
  max_from-map [] = refl
  max_from-map (g ∷ gs) =
      let same : (if ltb (length rows) (length (map g rows))
            then length (map g rows)
            else length rows)
          ≡ length rows =
        ground (arith, length-map g rows) in
      rw (same, max_from) (max_from-map gs)

  -- The columns of rows are as long as the rows.
  pub max_len-map :
      (g : A → Text) (gs : List (A → Text))
      → max_from 0 (map g rows ∷ map (λ h. map h rows) gs) ≡ length rows
  unfolding max_from
  max_len-map g gs =
      let same : (if ltb 0 (length (map g rows)) then length (map g rows) else 0) ≡ length rows =
        ground (arith, length-map g rows) in
      rw (same, max_from) (max_from-map gs)

pub ruleset columns = (
  form_values-append, form_values-checkbox, append-nil, form_values-flat_map, flat_map-nil,
  flat_map-one,
)
