-- ===== src/Analytics/Queries/Parameters.antt =====
-- Which parameters a query holds.
use go_resolver.Base.{
  Text, ◌≡◌, arith, Bool, not, Option, none, some, List, codes, lookup, lookup-insert, ◌===◌,
  truthy, if◌then◌else◌,
}
use go_resolver.Analytics.Filters.{Filters, trim, has_custom_filters}
use go_resolver.Analytics.Queries.{set_if, query_date_time, analytics_params}

-- A parameter that is there only under a test.
abbrev pub given : Bool → Text → Option Text
given test value = if test then some value else none

lookup-set_if :
    (b : Bool) (k v j : Text) (m : List (Text × Text))
    → lookup j (set_if b k v m) ≡ (if k === j then if b then some v else lookup j m else lookup j m)
unfolding set_if
lookup-set_if b k v j m = ground (arith, lookup-insert k j v m)

-- What the parameters of the filters are.
pub record IsQuery (to_iso : Text → Option Text) (f : Filters) (m : List (Text × Text))
    : Type 0 where
  pub range : lookup (codes "range") m ≡ given (truthy f.range) f.range
  pub from : lookup (codes "from") m ≡ given (truthy f.from) (query_date_time to_iso f.from)
  pub to : lookup (codes "to") m ≡ given (truthy f.to) (query_date_time to_iso f.to)
  pub host : lookup (codes "host") m ≡ given (truthy f.host) f.host
  pub q : lookup (codes "q") m ≡ given (truthy (trim f.q)) (trim f.q)
  pub filter : lookup (codes "filter") m ≡ given (truthy f.filter) f.filter
  pub method : lookup (codes "method") m ≡ given (truthy f.method) f.method
  pub status : lookup (codes "status") m ≡ given (truthy f.status) f.status
  pub status_class : lookup (codes "status_class") m ≡ given (truthy f.status_class) f.status_class
  pub uri_contains :
      lookup (codes "uri_contains") m ≡ given (truthy (trim f.uri_contains)) (trim f.uri_contains)
  pub ip_contains :
      lookup (codes "ip_contains") m ≡ given (truthy (trim f.ip_contains)) (trim f.ip_contains)
  pub isp_contains :
      lookup (codes "isp_contains") m ≡ given (truthy (trim f.isp_contains)) (trim f.isp_contains)
  pub internal :
      lookup (codes "include_internal_api") m ≡ given (not f.exclude_internal_api) (codes "1")
  pub cached : lookup (codes "cache_only") m ≡ given (has_custom_filters f) (codes "1")

-- Each filter that is set, trimmed where the page trims it, is a parameter of the query, and nothing
-- is a parameter for a filter that is not set; "cache_only" is set exactly for custom filters.
pub analytics_params-IsQuery :
    (to_iso : Text → Option Text) (f : Filters) → IsQuery to_iso f (analytics_params to_iso f)
unfolding analytics_params ◌===◌ lookup
analytics_params-IsQuery to_iso f = record {
  range = simp lookup-set_if;
  from = simp lookup-set_if;
  to = simp lookup-set_if;
  host = simp lookup-set_if;
  q = simp lookup-set_if;
  filter = simp lookup-set_if;
  method = simp lookup-set_if;
  status = simp lookup-set_if;
  status_class = simp lookup-set_if;
  uri_contains = simp lookup-set_if;
  ip_contains = simp lookup-set_if;
  isp_contains = simp lookup-set_if;
  internal = simp lookup-set_if;
  cached = simp lookup-set_if;
}
