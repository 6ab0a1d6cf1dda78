-- ===== src/Analytics/Callbacks.antt =====
-- The callbacks of `AnalyticsPageView` that change the filters and the page of the log, and the split
-- of the incidents.
pub mod Applied
pub mod Incidents
use go_resolver.Base.{
  Text, ℕ, zero, suc, ◌+◌, ◌-◌, ◌*◌, Bool, true, false, not, ◌&&◌, List, [], ◌∷◌, codes, ◌===◌,
  if◌then◌else◌, is_digit,
}
use go_resolver.Analytics.Filters.{Filters, default_filters}

-- The React state that these callbacks use; `filter_opened` is the dialog's.
pub record FilterState : Type 0 where
  pub draft_filters : Filters
  pub filters : Filters
  pub quick_search : Text
  pub reload_token : ℕ
  pub log_page : ℕ
  pub filter_opened : Bool

-- `s.replace(/[^\d]/g, "")`
unfoldable pub digits_only : Text → Text
digits_only [] = []
digits_only (c ∷ s) = let rest = digits_only s in if is_digit c then c ∷ rest else rest

-- `s.slice(0, n)`
unfoldable pub slice_to : ℕ → Text → Text
slice_to zero s = []
slice_to (suc n) [] = []
slice_to (suc n) (c ∷ s) = c ∷ slice_to n s

unfoldable pub same_flag : Bool → Bool → Bool
same_flag true b = b
same_flag false b = not b

-- `JSON.stringify(a) === JSON.stringify(b)`
unfoldable pub same_filters : Filters → Filters → Bool
unfolding same_flag
same_filters f g =
    (f.range === g.range)
    && (f.from === g.from)
    && (f.to === g.to)
    && (f.host === g.host)
    && (f.q === g.q)
    && (f.filter === g.filter)
    && (f.method === g.method)
    && (f.status === g.status)
    && (f.status_class === g.status_class)
    && (f.uri_contains === g.uri_contains)
    && (f.ip_contains === g.ip_contains)
    && (f.isp_contains === g.isp_contains)
    && same_flag f.exclude_internal_api g.exclude_internal_api

-- The draft with its status cleaned.
unfoldable pub next_filters : Filters → Filters
unfolding digits_only slice_to
next_filters draft = record draft { status = slice_to 3 (digits_only draft.status) }

unfoldable pub apply_filters : FilterState → FilterState
apply_filters s =
    let next = next_filters s.draft_filters in
    let applied = record s { filters = next; filter_opened = false } in
    if not (same_filters s.filters next)
    then applied
    else record applied { reload_token = s.reload_token + 1 }

unfoldable pub reset_filters : FilterState → FilterState
unfolding default_filters
reset_filters s = record s {
  draft_filters = default_filters;
  filters = default_filters;
  quick_search = [];
  reload_token = s.reload_token + 1;
  filter_opened = false;
}

-- The effect of `[filters]`.
unfoldable pub filters_effect : FilterState → FilterState
filters_effect s = record s { quick_search = s.filters.q; log_page = 1 }

-- `current.q === quickSearch ? current : { ...current, q: quickSearch }`
abbrev with_search : Text → Filters → Filters
with_search q f = if f.q === q then f else record f { q = q }

-- The timer of the effect of `[quickSearch]`.
unfoldable pub quick_search_timer : FilterState → FilterState
quick_search_timer s = record s {
  filters = with_search s.quick_search s.filters;
  draft_filters = with_search s.quick_search s.draft_filters;
}

abbrev pub log_page_size : ℕ
log_page_size = 50

-- The offset of the page of the log that is loaded.
unfoldable pub log_offset : FilterState → ℕ
log_offset s = (s.log_page - 1) * log_page_size

-- The fields of an incident that the page reads.
pub record Incident : Type 0 where
  pub id : Text
  pub title : Text
  pub status : Text

abbrev pub is_open : Incident → Bool
is_open i = i.status === codes "open"

unfoldable pub active_incidents : List Incident → List Incident
active_incidents [] = []
active_incidents (i ∷ is) = let rest = active_incidents is in if is_open i then i ∷ rest else rest

unfoldable pub incident_history : List Incident → List Incident
incident_history [] = []
incident_history (i ∷ is) =
    let rest = incident_history is in if not (is_open i) then i ∷ rest else rest
