-- ===== src/Analytics/Filters.antt =====
-- The filters: `defaultFilters`, `hasCustomFilters` and the trimming of their texts.
use go_resolver.Base.Trim.{trim_by}
use go_resolver.Base.{Text, ℕ, Bool, true, not, ◌&&◌, ◌||◌, [], codes, ◌===◌, ◌==◌, leb, truthy}

pub record Filters : Type 0 where
  pub range : Text
  pub from : Text
  pub to : Text
  pub host : Text
  pub q : Text
  pub filter : Text
  pub method : Text
  pub status : Text
  pub status_class : Text
  pub uri_contains : Text
  pub ip_contains : Text
  pub isp_contains : Text
  pub exclude_internal_api : Bool

unfoldable pub default_filters : Filters
default_filters = record {
  range = codes "60";
  from = [];
  to = [];
  host = [];
  q = [];
  filter = [];
  method = [];
  status = [];
  status_class = [];
  uri_contains = [];
  ip_contains = [];
  isp_contains = [];
  exclude_internal_api = true;
}

-- The code units that `trim` takes off: white space and line terminators.
unfoldable pub is_space : ℕ → Bool
is_space c =
    (leb 9 c && leb c 13)
    || c == 32
    || c == 160
    || c == 5760
    || (leb 8192 c && leb c 8202)
    || c == 8232
    || c == 8233
    || c == 8239
    || c == 8287
    || c == 12288
    || c == 65279

-- `s.trim()`
unfoldable pub trim : Text → Text
unfolding is_space
trim s = trim_by is_space s

unfoldable pub has_custom_filters : Filters → Bool
has_custom_filters f =
    not (f.range === codes "60")
    || truthy f.from
    || truthy f.to
    || truthy f.host
    || truthy (trim f.q)
    || truthy f.filter
    || truthy f.method
    || truthy f.status
    || truthy f.status_class
    || truthy (trim f.uri_contains)
    || truthy (trim f.ip_contains)
    || truthy (trim f.isp_contains)
