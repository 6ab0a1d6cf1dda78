-- ===== src/Analytics/Badges.antt =====
-- `summarizeFilters`: a badge for each filter that is set. `formatDateTime` is the browser's.
pub mod Uncustomised
use go_resolver.Base.{
  Text, Bool, not, ◌&&◌, Option, none, some, List, [], ◌∷◌, ◌++◌, codes, ◌===◌, if◌then◌else◌,
  truthy,
}
use go_resolver.Analytics.Filters.{Filters, trim}

-- `quickRangeOptions`, the values with their labels.
abbrev pub quick_range_options : List (Text × Text)
quick_range_options =
    (codes "15", codes "Last 15 minutes")
    ∷ (codes "60", codes "Last 60 minutes")
    ∷ (codes "360", codes "Last 6 hours")
    ∷ (codes "1440", codes "Last 24 hours")
    ∷ (codes "10080", codes "Last 7 days")
    ∷ []

-- `find(…)?.label`
unfoldable pub label_of : Text → List (Text × Text) → Option Text
label_of value [] = none
label_of value ((v, label) ∷ options) =
    let rest = label_of value options in if v === value then some label else rest

-- `if (text) summary.push(badge)`
abbrev pub push : Text → Text → List Text
push text badge = if truthy text then badge ∷ [] else []

-- `Name "text"`, with its double quotes.
abbrev pub quoted : Text → Text → Text
quoted name text = name ++ 34 ∷ (text ++ 34 ∷ [])

-- The badge of the range, which counts only without a date.
unfoldable pub range_badge : Filters → List Text
unfolding label_of
range_badge f =
    if not (truthy f.from) && not (truthy f.to) && truthy f.range
    then elim (label_of f.range quick_range_options) as (λ _. List Text) [
      | none ↦ []
      | some label ↦ if truthy label then label ∷ [] else []
    ]
    else []

module _ (format_date_time : Text → Text) where
  unfoldable pub summarize_filters : Filters → List Text
  unfolding range_badge
  summarize_filters f =
      push f.from (codes "From " ++ format_date_time f.from)
      ++ push f.to (codes "To " ++ format_date_time f.to)
      ++ range_badge f
      ++ push f.host (codes "Host " ++ f.host)
      ++ push (trim f.q) (quoted (codes "Search ") (trim f.q))
      ++ push f.method (codes "Method " ++ f.method)
      ++ push f.status (codes "Status " ++ f.status)
      ++ push f.status_class (codes "Class " ++ f.status_class)
      ++ push f.filter (codes "Verdict " ++ f.filter)
      ++ push (trim f.uri_contains) (quoted (codes "URI contains ") (trim f.uri_contains))
      ++ push (trim f.ip_contains) (quoted (codes "IP contains ") (trim f.ip_contains))
      ++ push (trim f.isp_contains) (quoted (codes "ISP contains ") (trim f.isp_contains))
