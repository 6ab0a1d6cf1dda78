-- ===== src/Settings.antt =====
-- The list of the settings page, `SettingsPageView` of web/frontend/src/pages/core-pages.tsx: the
-- search, the groups and the active group. `to_lower` is the `toLowerCase` of the browser.
pub mod Groups
mod Tests
use go_resolver.Base.{
  Text, Bool, true, false, not, ◌||◌, Option, none, some, List, [], ◌∷◌, ◌++◌, codes, ◌===◌,
  or_text, truthy, strip_prefix, if◌then◌else◌,
}
use go_resolver.Base.Search.{includes}
use go_resolver.Analytics.Filters.{trim}

-- `SettingItem`, the fields that the list reads.
pub record SettingItem : Type 0 where
  pub key : Text
  pub label : Text
  pub value : Text
  pub group : Text
  pub help : Text

-- `[item.Label, item.Key, item.Help, item.Value].join(" ")`
abbrev pub haystack : SettingItem → Text
haystack item =
    item.label ++ codes " " ++ item.key ++ codes " " ++ item.help ++ codes " " ++ item.value

module _ (to_lower : Text → Text) where
  unfoldable pub matches_query : Text → SettingItem → Bool
  unfolding includes
  matches_query query item =
      let normalized = to_lower (trim query) in
      not (truthy normalized) || includes (to_lower (haystack item)) normalized

  unfoldable pub filtered_items : Text → List SettingItem → List SettingItem
  unfolding matches_query
  filtered_items query [] = []
  filtered_items query (item ∷ items) =
      let rest = filtered_items query items in
      if matches_query query item then item ∷ rest else rest

-- `item.Group || "General"`
abbrev pub group_of : SettingItem → Text
group_of item = or_text item.group (codes "General")

-- One turn of the loop: the map keeps its groups in the order in which they were set.
unfoldable pub add_item :
    SettingItem → List (Text × List SettingItem) → List (Text × List SettingItem)
add_item item [] = (group_of item, item ∷ []) ∷ []
add_item item ((group, bucket) ∷ rest) =
    if group === group_of item
    then (group, bucket ++ item ∷ []) ∷ rest
    else (group, bucket) ∷ add_item item rest

unfoldable pub group_from :
    List SettingItem → List (Text × List SettingItem) → List (Text × List SettingItem)
unfolding add_item
group_from [] grouped = grouped
group_from (item ∷ items) grouped = group_from items (add_item item grouped)

unfoldable pub group_entries : List SettingItem → List (Text × List SettingItem)
unfolding group_from
group_entries items = group_from items []

-- `groupEntries.some(([group]) => group === active)`
unfoldable pub has_group : Text → List (Text × List SettingItem) → Bool
has_group active [] = false
has_group active ((group, bucket) ∷ rest) = (group === active) || has_group active rest

-- `groupEntries[0]?.[0] || "all"`
abbrev pub first_group : List (Text × List SettingItem) → Text
first_group [] = codes "all"
first_group ((group, bucket) ∷ rest) = or_text group (codes "all")

-- The effect of `[activeGroup, groupEntries]`.
unfoldable pub settle_group : Text → List (Text × List SettingItem) → Text
unfolding has_group
settle_group active groups =
    if active === codes "all"
    then active
    else if not (has_group active groups)
    then first_group groups
    else active
