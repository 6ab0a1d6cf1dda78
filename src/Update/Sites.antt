-- ===== src/Update/Sites.antt =====
-- The rows of the sites that the handler reads from the submitted form.
use go_resolver.Base.{
  Bool, Text, ℕ, ◌+◌, ◌≡◌, arith, true, false, some, List, [], ◌∷◌, ◌++◌, map, ◌===◌, get_elem?,
  length,
}
use go_resolver.FormState.Sites.{SiteRow}
use go_resolver.FormState.State.{ServerConfigForm}
use go_resolver.Update.Numbers.{trim_space, atoi_or_zero}
use go_resolver.Update.Submission.{Entries, form_entries}
use go_resolver.Update.Reading.{
  form_values, tabulate, SiteColumns, site_columns, ConfigurationRow, configuration_row_at,
  configuration_row_count,
}
use go_resolver.Update.Columns.{columns, value_at-map, tabulate-map, max_len-map}

-- What the handler makes of one row of the form.
abbrev pub read_site : SiteRow → ConfigurationRow
read_site site = record {
  id = site.id;
  name = trim_space site.server_name;
  site_enabled = atoi_or_zero site.site_enabled;
  port = atoi_or_zero site.server_port;
  ssl_enabled = atoi_or_zero site.ssl_enabled;
  ssl_redirect = atoi_or_zero site.ssl_redirect;
  hsts = atoi_or_zero site.hsts;
  proxy_port = atoi_or_zero site.proxy_pass_port;
  proxy_errors = atoi_or_zero site.proxy_intercept_errors;
  connect_ttl = atoi_or_zero site.proxy_connect_timeout;
  read_ttl = atoi_or_zero site.proxy_read_timeout;
  send_ttl = atoi_or_zero site.proxy_send_timeout;
  websockets = atoi_or_zero site.websockets;
}

-- The columns of a list of rows.
abbrev columns_of : List SiteRow → SiteColumns
columns_of rows = record {
  ids = map (λ (r : SiteRow). r.id) rows;
  server_names = map (λ (r : SiteRow). r.server_name) rows;
  site_enabled = map (λ (r : SiteRow). r.site_enabled) rows;
  server_ports = map (λ (r : SiteRow). r.server_port) rows;
  ssl_enabled = map (λ (r : SiteRow). r.ssl_enabled) rows;
  ssl_redirect = map (λ (r : SiteRow). r.ssl_redirect) rows;
  hsts_enabled = map (λ (r : SiteRow). r.hsts) rows;
  proxy_pass_ports = map (λ (r : SiteRow). r.proxy_pass_port) rows;
  proxy_errors = map (λ (r : SiteRow). r.proxy_intercept_errors) rows;
  proxy_connect_timeout = map (λ (r : SiteRow). r.proxy_connect_timeout) rows;
  proxy_read_timeout = map (λ (r : SiteRow). r.proxy_read_timeout) rows;
  proxy_send_timeout = map (λ (r : SiteRow). r.proxy_send_timeout) rows;
  websockets_enabled = map (λ (r : SiteRow). r.websockets) rows;
}

site_columns-form_entries :
    (vpn : Bool) (tab : Text) (form : ServerConfigForm)
    → site_columns (form_entries false true vpn tab form)
      ≡ columns_of (form.sites ++ form.new_sites)
unfolding site_columns form_entries ◌===◌ form_values
site_columns-form_entries true tab form = simp columns
site_columns-form_entries false tab form = simp columns

module _ (rows : List SiteRow) where
  configuration_row_count-columns_of : configuration_row_count (columns_of rows) ≡ length rows
  unfolding configuration_row_count
  configuration_row_count-columns_of =
      max_len-map rows (λ r. r.id)
        ((λ r. r.server_name)
          ∷ (λ r. r.site_enabled)
          ∷ (λ r. r.server_port)
          ∷ (λ r. r.ssl_enabled)
          ∷ (λ r. r.ssl_redirect)
          ∷ (λ r. r.hsts)
          ∷ (λ r. r.proxy_pass_port)
          ∷ (λ r. r.proxy_intercept_errors)
          ∷ (λ r. r.proxy_connect_timeout)
          ∷ (λ r. r.proxy_read_timeout)
          ∷ (λ r. r.proxy_send_timeout)
          ∷ (λ r. r.websockets)
          ∷ [])

  configuration_row_at-columns_of :
      (j : ℕ) (r : SiteRow)
      → get_elem? rows j ≡ some r
      → configuration_row_at (columns_of rows) (0 + j) ≡ read_site r
  unfolding configuration_row_at
  configuration_row_at-columns_of j r h =
      let index : 0 + j ≡ j = omega arith in
      let at = λ (g : SiteRow → Text). value_at-map g rows j h in rw index (simp at)

-- The rows that the handler reads, one for each round of its loop.
unfoldable pub configuration_rows : Entries → List ConfigurationRow
configuration_rows entries =
    let d = site_columns entries in tabulate (configuration_row_count d) 0 (configuration_row_at d)

-- From the form of a managed server, submitted while it is edited, the handler reads exactly the rows
-- that the page shows, the new ones behind the others.
pub configuration_rows-form_entries :
    (vpn : Bool) (tab : Text) (form : ServerConfigForm)
    → configuration_rows (form_entries false true vpn tab form)
      ≡ map read_site (form.sites ++ form.new_sites)
unfolding configuration_rows
configuration_rows-form_entries vpn tab form =
    let rows = form.sites ++ form.new_sites in
    rw (site_columns-form_entries vpn tab form, configuration_row_count-columns_of rows)
      (tabulate-map read_site (configuration_row_at (columns_of rows)) rows 0
        (configuration_row_at-columns_of rows))
