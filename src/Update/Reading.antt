-- ===== src/Update/Reading.antt =====
-- How the handler reads a form: `loadServerConfigurationUpdateData`, `loadSystemNginxSites` and the rows
-- of internal/handlers/serverconfiguration_update.go, and the policies that `applyDDoSFromForm` and
-- `applyFail2BanFromForm` of internal/handlers/serverconfiguration_handler.go make. The decoded form is
-- the list of its entries, in order.
use go_resolver.Base.{
  Text, ℕ, zero, suc, ◌+◌, Bool, ◌&&◌, List, [], ◌∷◌, codes, ◌===◌, get_elem?, length, ltb,
  if◌then◌else◌, text_or_empty,
}
use go_resolver.Base.Int.{ℤ}
use go_resolver.Update.Numbers.{trim_space, atoi_or_zero}
use go_resolver.Update.Submission.{Entries}

-- `r.Form[name]`
unfoldable pub form_values : Text → Entries → List Text
form_values name [] = []
form_values name ((key, value) ∷ rest) =
    let found = form_values name rest in if key === name then value ∷ found else found

-- `r.FormValue(name)`: the first value, or nothing.
abbrev pub first_value : List Text → Text
first_value [] = []
first_value (value ∷ _) = value

abbrev pub form_value : Text → Entries → Text
form_value name entries = first_value (form_values name entries)

-- `valueAt`; the index of a loop is never negative.
unfoldable pub value_at : List Text → ℕ → Text
value_at values i = text_or_empty (get_elem? values i)

-- `maxLen`
unfoldable pub max_from : ℕ → List (List Text) → ℕ
max_from max [] = max
max_from max (s ∷ slices) = max_from (if ltb max (length s) then length s else max) slices

abbrev pub max_len : List (List Text) → ℕ
max_len slices = max_from 0 slices

-- `for i := 0; i < n; i++`, for what the body reads at `i`.
unfoldable pub tabulate {ℓ} : {A : Type ℓ} → ℕ → ℕ → (ℕ → A) → List A
tabulate zero i f = []
tabulate (suc n) i f = f i ∷ tabulate n (i + 1) f

-- The columns of `serverConfigurationUpdateData` for the sites.
pub record SiteColumns : Type 0 where
  pub ids : List Text
  pub server_names : List Text
  pub site_enabled : List Text
  pub server_ports : List Text
  pub ssl_enabled : List Text
  pub ssl_redirect : List Text
  pub hsts_enabled : List Text
  pub proxy_pass_ports : List Text
  pub proxy_errors : List Text
  pub proxy_connect_timeout : List Text
  pub proxy_read_timeout : List Text
  pub proxy_send_timeout : List Text
  pub websockets_enabled : List Text

unfoldable pub site_columns : Entries → SiteColumns
site_columns form = record {
  ids = form_values (codes "id[]") form;
  server_names = form_values (codes "server_name[]") form;
  site_enabled = form_values (codes "site_enabled[]") form;
  server_ports = form_values (codes "server_port[]") form;
  ssl_enabled = form_values (codes "ssl_enabled[]") form;
  ssl_redirect = form_values (codes "ssl_redirect[]") form;
  hsts_enabled = form_values (codes "hsts[]") form;
  proxy_pass_ports = form_values (codes "proxy_pass_port[]") form;
  proxy_errors = form_values (codes "proxy_intercept_errors[]") form;
  proxy_connect_timeout = form_values (codes "proxy_connect_timeout[]") form;
  proxy_read_timeout = form_values (codes "proxy_read_timeout[]") form;
  proxy_send_timeout = form_values (codes "proxy_send_timeout[]") form;
  websockets_enabled = form_values (codes "Websockets[]") form;
}

-- `serverConfigurationRow`
pub record ConfigurationRow : Type 0 where
  pub id : Text
  pub name : Text
  pub site_enabled : ℤ
  pub port : ℤ
  pub ssl_enabled : ℤ
  pub ssl_redirect : ℤ
  pub hsts : ℤ
  pub proxy_port : ℤ
  pub proxy_errors : ℤ
  pub connect_ttl : ℤ
  pub read_ttl : ℤ
  pub send_ttl : ℤ
  pub websockets : ℤ

unfoldable pub configuration_row_at : SiteColumns → ℕ → ConfigurationRow
configuration_row_at d i = record {
  id = value_at d.ids i;
  name = trim_space (value_at d.server_names i);
  site_enabled = atoi_or_zero (value_at d.site_enabled i);
  port = atoi_or_zero (value_at d.server_ports i);
  ssl_enabled = atoi_or_zero (value_at d.ssl_enabled i);
  ssl_redirect = atoi_or_zero (value_at d.ssl_redirect i);
  hsts = atoi_or_zero (value_at d.hsts_enabled i);
  proxy_port = atoi_or_zero (value_at d.proxy_pass_ports i);
  proxy_errors = atoi_or_zero (value_at d.proxy_errors i);
  connect_ttl = atoi_or_zero (value_at d.proxy_connect_timeout i);
  read_ttl = atoi_or_zero (value_at d.proxy_read_timeout i);
  send_ttl = atoi_or_zero (value_at d.proxy_send_timeout i);
  websockets = atoi_or_zero (value_at d.websockets_enabled i);
}

-- The number of rounds of `saveServerConfigurationRows`.
unfoldable pub configuration_row_count : SiteColumns → ℕ
unfolding max_from
configuration_row_count d = max_len (
    d.ids ∷ d.server_names ∷ d.site_enabled ∷ d.server_ports ∷ d.ssl_enabled ∷ d.ssl_redirect
    ∷ d.hsts_enabled ∷ d.proxy_pass_ports ∷ d.proxy_errors ∷ d.proxy_connect_timeout
    ∷ d.proxy_read_timeout ∷ d.proxy_send_timeout ∷ d.websockets_enabled ∷ [])

-- `empty` of a row.
abbrev pub is_empty_row : ConfigurationRow → Bool
is_empty_row row = (row.id === []) && (row.name === [])
