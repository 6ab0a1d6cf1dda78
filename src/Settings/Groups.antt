-- ===== src/Settings/Groups.antt =====
-- Every setting that is found stands in its group, and the active group is one that is shown.
use go_resolver.Base.{
  Text, ◌≡◌, ◌↔◌, ◌⊎◌, inl, inr, refl, sym, ◌∙◌, ap, arith, Bool-cases, true, List, [], ◌∷◌, ◌++◌,
  codes, ◌===◌, ===_iff, ===_ne, ===_apart, append_assoc, append-nil, In, if◌then◌else◌,
}
use go_resolver.Settings.{
  SettingItem, matches_query, filtered_items, group_of, add_item, group_from, group_entries,
  has_group, first_group, settle_group,
}

-- The bucket of a group, empty if there is none.
abbrev pub bucket_of : Text → List (Text × List SettingItem) → List SettingItem
bucket_of g [] = []
bucket_of g ((group, bucket) ∷ rest) = if group === g then bucket else bucket_of g rest

-- The items of a group, in their order.
abbrev pub in_group : Text → List SettingItem → List SettingItem
in_group g [] = []
in_group g (item ∷ items) =
    let rest = in_group g items in if group_of item === g then item ∷ rest else rest

in_group-cons :
    (g : Text) (item : SettingItem) (items : List SettingItem)
    → in_group g (item ∷ []) ++ in_group g items ≡ in_group g (item ∷ items)
in_group-cons g item items = elim (Bool-cases (group_of item === g)) [
  | inl y ↦ rw y refl
  | inr n ↦ rw n refl
]

-- The bucket of the item's own group grows by the item.
grown :
    (g group k : Text)
    → group ≡ k
    → (bucket others : List SettingItem) (item : SettingItem)
    → (if group === g then bucket ++ item ∷ [] else others)
      ≡ (if group === g then bucket else others) ++ (if k === g then item ∷ [] else [])
grown g group k e bucket others item = elim (Bool-cases (group === g)) [
  | inl y ↦ rw (← e, y) refl
  | inr n ↦ rw (← e, n) (sym (append-nil others))
]

bucket_of-add_item :
    (g : Text) (item : SettingItem) (m : List (Text × List SettingItem))
    → bucket_of g (add_item item m) ≡ bucket_of g m ++ in_group g (item ∷ [])
unfolding add_item
bucket_of-add_item g item [] = refl
bucket_of-add_item g item ((group, bucket) ∷ rest) = elim (Bool-cases (group === group_of item)) [
  | inl same ↦
      rw (same, add_item)
        (grown g group (group_of item) ((===_iff group (group_of item)).0 same) bucket
          (bucket_of g rest) item)
  | inr other ↦ elim (Bool-cases (group === g)) [
    | inl y ↦
        rw
          (
            other,
            y,
            ===_ne (group_of item) g (λ e. ===_apart other ((===_iff group g).0 y ∙ sym e)),
            add_item,
          )
          (sym (append-nil bucket))
    | inr n ↦ rw (other, n, add_item) (bucket_of-add_item g item rest)
  ]
]

bucket_of-group_from :
    (g : Text) (items : List SettingItem) (m : List (Text × List SettingItem))
    → bucket_of g (group_from items m) ≡ bucket_of g m ++ in_group g items
unfolding group_from
bucket_of-group_from g [] m = sym (append-nil (bucket_of g m))
bucket_of-group_from g (item ∷ items) m =
    bucket_of-group_from g items (add_item item m)
    ∙ ap (λ b. b ++ in_group g items) (bucket_of-add_item g item m)
    ∙ append_assoc (bucket_of g m) (in_group g (item ∷ [])) (in_group g items)
    ∙ ap (λ b. bucket_of g m ++ b) (in_group-cons g item items)

-- The bucket of each group holds exactly the items of that group, in their order.
pub group_entries-bucket_of :
    (g : Text) (items : List SettingItem) → bucket_of g (group_entries items) ≡ in_group g items
unfolding group_entries
group_entries-bucket_of g items = bucket_of-group_from g items []

-- A group that is shown.
abbrev pub IsShown : Text → List (Text × List SettingItem) → Type 0
IsShown active [] = ⊥
IsShown active ((group, bucket) ∷ rest) = (group ≡ active) ⊎ IsShown active rest

has_group-IsShown :
    (active : Text) (m : List (Text × List SettingItem))
    → has_group active m ≡ true
    → IsShown active m
unfolding has_group
has_group-IsShown active [] h = cc
has_group-IsShown active ((group, bucket) ∷ rest) h =
    grind (arith, ===_iff group active, has_group-IsShown active rest)

first_group-IsShown :
    (m : List (Text × List SettingItem)) → (first_group m ≡ codes "all") ⊎ IsShown (first_group m) m
first_group-IsShown [] = inl refl
first_group-IsShown (([], bucket) ∷ rest) = inl refl
first_group-IsShown ((c ∷ group, bucket) ∷ rest) = inr (inl refl)

-- The active group is "all" or a group that is shown, and one that is shown stays.
settle_group-IsShown :
    (active : Text) (m : List (Text × List SettingItem))
    → ((settle_group active m ≡ codes "all") ⊎ IsShown (settle_group active m) m)
      × (has_group active m ≡ true → settle_group active m ≡ active)
unfolding settle_group
settle_group-IsShown active m = elim (Bool-cases (active === codes "all")) [
  | inl y ↦ rw (y, settle_group) (inl ((===_iff active (codes "all")).0 y), λ _. refl)
  | inr n ↦ elim (Bool-cases (has_group active m)) [
    | inl here ↦ rw (n, here, settle_group) (inr (has_group-IsShown active m here), λ _. refl)
    | inr gone ↦ rw (n, gone, settle_group) (first_group-IsShown m, λ e. absurd (cc))
  ]
]

-- The settings that are found are those among the settings that match the query.
In-filtered_items :
    (to_lower : Text → Text) (query : Text) (item : SettingItem) (items : List SettingItem)
    → In item (filtered_items to_lower query items)
      ↔ (In item items × (matches_query to_lower query item ≡ true))
unfolding filtered_items
In-filtered_items to_lower query item [] = ground arith
In-filtered_items to_lower query item (i ∷ items) =
    grind (arith, In-filtered_items to_lower query item items)
