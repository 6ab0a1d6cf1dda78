-- ===== src/Analytics/Queries.antt =====
-- The query of the filters, `buildAnalyticsQuery`, and the URLs made of it. `URLSearchParams` is the
-- interface of Base/Url; `to_iso` is `new Date(value).toISOString()`, or nothing if the date is
-- invalid, which depends on the local time zone.
pub mod Parameters
use go_resolver.Base.{
  Text, ℕ, Bool, true, false, not, Option, none, some, List, [], ◌∷◌, ◌++◌, codes, decimal, insert,
  truthy, if◌then◌else◌,
}
use go_resolver.Base.Url.{UrlParams}
use go_resolver.Analytics.Filters.{Filters, trim, has_custom_filters}

-- `if (test) params.set(name, value)`
unfoldable pub set_if : Bool → Text → Text → List (Text × Text) → List (Text × Text)
set_if test name value params = if test then insert name value params else params

-- `toAPIQueryDateTime` of a text that is not empty.
abbrev pub query_date_time : (Text → Option Text) → Text → Text
query_date_time to_iso value = elim (to_iso value) [ none ↦ value | some iso ↦ iso ]

module _ (to_iso : Text → Option Text) (f : Filters) where
  -- The parameters of `buildAnalyticsQuery`, in the order of the source.
  unfoldable pub analytics_params : List (Text × Text)
  analytics_params =
      let p1 = set_if (truthy f.range) (codes "range") f.range [] in
      let p2 = set_if (truthy f.from) (codes "from") (query_date_time to_iso f.from) p1 in
      let p3 = set_if (truthy f.to) (codes "to") (query_date_time to_iso f.to) p2 in
      let p4 = set_if (truthy f.host) (codes "host") f.host p3 in
      let p5 = set_if (truthy (trim f.q)) (codes "q") (trim f.q) p4 in
      let p6 = set_if (truthy f.filter) (codes "filter") f.filter p5 in
      let p7 = set_if (truthy f.method) (codes "method") f.method p6 in
      let p8 = set_if (truthy f.status) (codes "status") f.status p7 in
      let p9 = set_if (truthy f.status_class) (codes "status_class") f.status_class p8 in
      let p10 =
        set_if (truthy (trim f.uri_contains)) (codes "uri_contains") (trim f.uri_contains) p9 in
      let p11 =
        set_if (truthy (trim f.ip_contains)) (codes "ip_contains") (trim f.ip_contains) p10 in
      let p12 =
        set_if (truthy (trim f.isp_contains)) (codes "isp_contains") (trim f.isp_contains) p11 in
      let p13 =
        set_if (not f.exclude_internal_api) (codes "include_internal_api") (codes "1") p12 in
      set_if (has_custom_filters f) (codes "cache_only") (codes "1") p13

  module _ (u : UrlParams) where
    unfoldable pub build_analytics_query : Text
    unfolding analytics_params
    build_analytics_query = u.to_string analytics_params

    unfoldable pub build_analytics_url : Text
    unfolding build_analytics_query
    build_analytics_url = codes "/api/analytics?" ++ build_analytics_query

    -- `new URLSearchParams(buildAnalyticsQuery(filters))`
    abbrev pub parsed_params : List (Text × Text)
    parsed_params = u.parse build_analytics_query

    unfoldable pub geo_params : List (Text × Text)
    geo_params = insert (codes "cache_only") (codes "1") parsed_params

    unfoldable pub build_geo_url : Text
    unfolding geo_params
    build_geo_url = codes "/api/analytics/ip-geo?" ++ u.to_string geo_params

    unfoldable pub logs_params : ℕ → ℕ → List (Text × Text)
    logs_params limit offset =
        insert (codes "offset") (decimal offset)
          (insert (codes "limit") (decimal limit) parsed_params)

    unfoldable pub build_logs_url : ℕ → ℕ → Text
    unfolding logs_params
    build_logs_url limit offset =
        codes "/api/analytics/logs?" ++ u.to_string (logs_params limit offset)

    unfoldable pub build_ip_profile_url : Text → Text
    build_ip_profile_url ip =
        codes "/api/analytics/ip-profile?" ++ u.to_string (insert (codes "ip") ip parsed_params)
