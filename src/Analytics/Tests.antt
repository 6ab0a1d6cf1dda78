-- ===== src/Analytics/Tests.antt =====
-- Runs of the functions of the analytics page, and the theorems at concrete filters and incidents.
use go_resolver.Base.Trim.{trim_by}
use go_resolver.Base.{
  Text, decimal, ◌++◌, ◌≡◌, refl, [], ◌∷◌, none, true, codes, lookup, insert, ◌===◌,
}
use go_resolver.Base.{ℕ, Bool, ◌≢◌, ◌↔◌, In, inl, inr, some, false, arith}
use go_resolver.Analytics.Loading.{
  Loader, opened_analytics, cancel_run, end_run, take_outcome, load_everything, loaded, failed,
  finish_load, refresh_tick, Runs, opens, loads, finishes,
}
use go_resolver.Analytics.Loading.Latest.{latest_load}
use go_resolver.Analytics.Filters.{Filters, default_filters, trim, is_space, has_custom_filters}
use go_resolver.Analytics.Queries.{set_if, analytics_params}
use go_resolver.Analytics.Queries.Parameters.{IsQuery, analytics_params-IsQuery}
use go_resolver.Analytics.Callbacks.{
  FilterState, digits_only, slice_to, same_filters, same_flag, next_filters, apply_filters,
  reset_filters, filters_effect, quick_search_timer, log_offset, Incident, active_incidents,
  incident_history,
}
use go_resolver.Analytics.Callbacks.Applied.{IsApplied, apply_filters-IsApplied}
use go_resolver.Analytics.Format.{unit_size, unit_name, unit_from, rounded, in_unit, format_bytes}
use go_resolver.Analytics.Format.Rounding.{Shows, format_bytes-Shows}
use go_resolver.Analytics.Badges.{label_of, range_badge, summarize_filters}
use go_resolver.Analytics.Badges.Uncustomised.{default_badge, summarize_filters-default}
use go_resolver.Analytics.Profile.{
  Profiles, no_profiles, open_ip_profile, answered, end_ip_profile, drop_request, Viewing, starts,
  asks, ends, dismiss_incident, delete_history_incident,
}
use go_resolver.Analytics.Profile.Waiting.{IsServed, Viewing-IsServed}

filtering : Unit {0}
unfolding default_filters trim is_space trim_by has_custom_filters set_if analytics_params lookup
    insert ◌===◌ digits_only slice_to same_filters same_flag next_filters apply_filters
    reset_filters filters_effect quick_search_timer log_offset active_incidents incident_history
    opened_analytics cancel_run load_everything end_run take_outcome finish_load refresh_tick
filtering = tt

abbrev searched : Filters
unfolding filtering
searched = record default_filters { q = codes " 10.0.0.1 "; status = codes "4x045" }

query_tests :
    (analytics_params (λ _. none) default_filters ≡ (codes "range", codes "60") ∷ [])
    × (analytics_params (λ _. none) searched
        ≡ (codes "range", codes "60")
          ∷ (codes "q", codes "10.0.0.1")
          ∷ (codes "status", codes "4x045")
          ∷ (codes "cache_only", codes "1")
          ∷ [])
unfolding filtering
query_tests = (refl, refl)

analytics_params-IsQuery_example :
    IsQuery (λ _. none) searched (analytics_params (λ _. none) searched)
analytics_params-IsQuery_example = analytics_params-IsQuery (λ _. none) searched

abbrev drafted : FilterState
unfolding filtering
drafted = record {
  draft_filters = searched;
  filters = default_filters;
  quick_search = [];
  reload_token = 3;
  log_page = 2;
  filter_opened = true;
}

state_tests :
    ((apply_filters drafted).filters.status ≡ codes "404")
    × ((apply_filters drafted).reload_token ≡ 3)
    × ((apply_filters (reset_filters drafted)).reload_token ≡ 5)
    × ((filters_effect (apply_filters drafted)).quick_search ≡ codes " 10.0.0.1 ")
    × ((quick_search_timer (record drafted { quick_search = codes "a" })).filters.q ≡ codes "a")
    × (log_offset drafted ≡ 50)
unfolding filtering
state_tests = (refl, refl, refl, refl, refl, refl)

apply_filters-IsApplied_example : IsApplied drafted (apply_filters drafted)
apply_filters-IsApplied_example = apply_filters-IsApplied drafted

abbrev scan : Incident
scan = record { id = codes "1"; title = codes "Scan"; status = codes "open" }

abbrev flood : Incident
flood = record { id = codes "2"; title = codes "Flood"; status = codes "dismissed" }

incident_tests :
    (active_incidents (flood ∷ scan ∷ []) ≡ scan ∷ [])
    × (incident_history (flood ∷ scan ∷ []) ≡ flood ∷ [])
unfolding filtering
incident_tests = (refl, refl)

-- The filters change while a load runs, and the first load ends.
abbrev reloaded : Loader
reloaded = finish_load 1 true (failed []) (load_everything (load_everything opened_analytics))

reloaded-Runs : Runs reloaded
unfolding filtering
reloaded-Runs = finishes (loads (loads opens)) 1 true (failed []) (inr (inl refl))

ran_twice : reloaded.run ≢ 0
unfolding filtering
ran_twice = omega arith

-- The page is loading, but the mark that holds the timer back is gone, so that a tick loads again.
loading_tests :
    (reloaded.loading ≡ true)
    × (reloaded.in_flight ≡ false)
    × (reloaded.alerts ≡ [])
    × ((refresh_tick reloaded).reload_token ≡ 1)
    × ((finish_load 2 false loaded reloaded).loading ≡ false)
    × ((finish_load 2 false loaded reloaded).shown ≡ some 2)
unfolding filtering
loading_tests = (refl, refl, refl, refl, refl, refl)

latest_load_example :
    ((reloaded.loading ≡ true) ↔ In (reloaded.run, false) reloaded.loads)
    × ((n : ℕ) (c : Bool) → In (n, c) reloaded.loads → (c ≡ false) ↔ (n ≡ reloaded.run))
latest_load_example = latest_load reloaded reloaded-Runs ran_twice

byte_tests :
    (format_bytes 0 ≡ codes "0 B")
    × (format_bytes 1023 ≡ codes "1023 B")
    × (format_bytes 1536 ≡ codes "1.5 KB")
    × (format_bytes 1_048_575 ≡ codes "1024 KB")
    × (format_bytes 53_687_091_200 ≡ codes "50 GB")
unfolding unit_size unit_name unit_from rounded in_unit format_bytes decimal
byte_tests = (refl, refl, refl, refl, refl)

format_bytes-Shows_example : Shows 1536 (format_bytes 1536)
format_bytes-Shows_example = format_bytes-Shows 1536 (λ e. absurd (omega arith))

-- `formatDateTime` as it is for a value that is no date.
abbrev as_is : Text → Text
as_is value = value

badge_test :
    summarize_filters as_is (record default_filters { q = codes " a "; status = codes "404" })
    ≡ codes "Last 60 minutes"
      ∷ (codes "Search " ++ 34 ∷ codes "a" ++ 34 ∷ [])
      ∷ codes "Status 404"
      ∷ []
unfolding filtering summarize_filters range_badge label_of
badge_test = refl

summarize_filters-default_example :
    (summarize_filters as_is default_filters ≡ default_badge ∷ [])
    ↔ (has_custom_filters default_filters ≡ false)
summarize_filters-default_example = summarize_filters-default as_is default_filters

-- Two profiles are opened, and the answer to the first one comes last.
abbrev overtaken : Profiles
overtaken = end_ip_profile 0 answered (
    end_ip_profile 1 answered
      (open_ip_profile (codes "/b") (open_ip_profile (codes "/a") no_profiles)))

profile_tests :
    (overtaken.active_profile ≡ some 0)
    × (overtaken.asked ≡ codes "/a" ∷ codes "/b" ∷ [])
    × (overtaken.profile_loading ≡ false)
unfolding no_profiles open_ip_profile end_ip_profile drop_request
profile_tests = (refl, refl, refl)

overtaken-Viewing : Viewing overtaken
unfolding no_profiles open_ip_profile end_ip_profile drop_request
overtaken-Viewing =
    ends (ends (asks (asks starts (codes "/a")) (codes "/b")) 1 answered (inl refl)) 0 answered
      (inl refl)

Viewing-IsServed_example : IsServed overtaken
Viewing-IsServed_example = Viewing-IsServed overtaken overtaken-Viewing

request_tests :
    (dismiss_incident true (record { id = codes "7"; title = []; status = codes "open" })
      ≡ some record { method = codes "POST"; path = codes "/api/analytics/incidents/7/dismiss" })
    × (delete_history_incident false (record { id = codes "7"; title = []; status = [] }) ≡ none)
unfolding dismiss_incident delete_history_incident
request_tests = (refl, refl)
