-- ===== src/Settings/Tests.antt =====
-- Runs of the list of the settings, and the theorems at concrete settings.
use go_resolver.Base.Trim.{trim_by}
use go_resolver.Base.{Text, ◌≡◌, refl, List, [], ◌∷◌, codes, ◌===◌, strip_prefix}
use go_resolver.Analytics.Filters.{trim, is_space}
use go_resolver.Base.Search.{includes}
use go_resolver.Settings.{
  SettingItem, matches_query, filtered_items, add_item, group_from, group_entries, has_group,
  settle_group,
}
use go_resolver.Settings.Groups.{bucket_of, in_group, group_entries-bucket_of}

listing : Unit {0}
unfolding trim trim_by is_space includes matches_query filtered_items add_item group_from
    group_entries has_group settle_group ◌===◌ strip_prefix
listing = tt

abbrev host : SettingItem
host = record {
  key = codes "smtp.host";
  label = codes "Host";
  value = codes "mail";
  group = codes "Mail";
  help = [];
}

abbrev name : SettingItem
name = record host { key = codes "name"; group = [] }

abbrev port : SettingItem
port = record host { key = codes "smtp.port" }

abbrev items : List SettingItem
items = host ∷ name ∷ port ∷ []

-- Nothing is changed by this lower case.
abbrev same_case : Text → Text
same_case s = s

list_tests :
    (group_entries items ≡ (codes "Mail", host ∷ port ∷ []) ∷ (codes "General", name ∷ []) ∷ [])
    × (filtered_items same_case (codes " smtp.p ") items ≡ port ∷ [])
    × (filtered_items same_case (codes " ") items ≡ items)
    × (settle_group (codes "Web") (group_entries items) ≡ codes "Mail")
unfolding listing
list_tests = (refl, refl, refl, refl)

group_entries-bucket_of_example :
    bucket_of (codes "Mail") (group_entries items) ≡ in_group (codes "Mail") items
group_entries-bucket_of_example = group_entries-bucket_of (codes "Mail") items
