-- ===== src/Update/NginxSites/Rows.antt =====
-- The sites of the system's Nginx that the handler reads from the submitted form.
use go_resolver.Base.{
  Bool, Text, ℕ, ◌+◌, ◌≡◌, ap, arith, true, some, List, [], ◌∷◌, ◌++◌, map, ◌===◌, get_elem?,
  length, codes,
}
use go_resolver.FormState.Nginx.{NginxRow}
use go_resolver.FormState.State.{ServerConfigForm}
use go_resolver.Update.Numbers.{trim_space, atoi_or_zero}
use go_resolver.Update.Submission.{form_entries}
use go_resolver.Update.Reading.{form_values}
use go_resolver.Update.Columns.{columns, value_at-map, tabulate-map, max_len-map}
use go_resolver.Update.NginxSites.{
  NginxColumns, nginx_columns, NginxSite, nginx_site_at, nginx_row_count, keep_sites,
  load_system_nginx_sites,
}

-- What the handler makes of one row of the form.
abbrev pub read_nginx_site : NginxRow → NginxSite
read_nginx_site r = record {
  id = trim_space r.id;
  server_name = trim_space r.server_name;
  listen_port = atoi_or_zero r.listen_port;
  ssl = r.ssl === codes "1";
  http2 = r.http2 === codes "1";
  mode = trim_space r.mode;
  cert_path = trim_space r.cert_path;
  key_path = trim_space r.key_path;
  ssl_config_path = trim_space r.ssl_config_path;
  ssl_dhparam_path = trim_space r.ssl_dhparam_path;
  root_path = trim_space r.root_path;
  index_files = trim_space r.index_files;
  proxy_pass_url = trim_space r.proxy_pass_url;
  static_alias_path = trim_space r.static_alias_path;
  php_enabled = r.php_enabled === codes "1";
  php_socket = trim_space r.php_socket;
  phpmyadmin_enabled = r.phpmyadmin_enabled === codes "1";
  phpmyadmin_socket = trim_space r.phpmyadmin_socket;
  proxy_buffering_off = r.proxy_buffering_off === codes "1";
  access_log_off_static = r.access_log_off_static === codes "1";
  static_expires = trim_space r.static_expires;
  static_cache_control = trim_space r.static_cache_control;
}

abbrev nginx_columns_of : List NginxRow → NginxColumns
nginx_columns_of rows = record {
  id = map (λ (r : NginxRow). r.id) rows;
  server_name = map (λ (r : NginxRow). r.server_name) rows;
  listen_port = map (λ (r : NginxRow). r.listen_port) rows;
  ssl = map (λ (r : NginxRow). r.ssl) rows;
  http2 = map (λ (r : NginxRow). r.http2) rows;
  mode = map (λ (r : NginxRow). r.mode) rows;
  cert_path = map (λ (r : NginxRow). r.cert_path) rows;
  key_path = map (λ (r : NginxRow). r.key_path) rows;
  ssl_config_path = map (λ (r : NginxRow). r.ssl_config_path) rows;
  ssl_dhparam_path = map (λ (r : NginxRow). r.ssl_dhparam_path) rows;
  root_path = map (λ (r : NginxRow). r.root_path) rows;
  index_files = map (λ (r : NginxRow). r.index_files) rows;
  proxy_pass_url = map (λ (r : NginxRow). r.proxy_pass_url) rows;
  static_alias_path = map (λ (r : NginxRow). r.static_alias_path) rows;
  php_enabled = map (λ (r : NginxRow). r.php_enabled) rows;
  php_socket = map (λ (r : NginxRow). r.php_socket) rows;
  phpmyadmin_enabled = map (λ (r : NginxRow). r.phpmyadmin_enabled) rows;
  phpmyadmin_socket = map (λ (r : NginxRow). r.phpmyadmin_socket) rows;
  proxy_buffering_off = map (λ (r : NginxRow). r.proxy_buffering_off) rows;
  access_log_off_static = map (λ (r : NginxRow). r.access_log_off_static) rows;
  static_expires = map (λ (r : NginxRow). r.static_expires) rows;
  static_cache_control = map (λ (r : NginxRow). r.static_cache_control) rows;
}

nginx_columns-form_entries :
    (vpn : Bool) (tab : Text) (form : ServerConfigForm)
    → nginx_columns (form_entries true true vpn tab form)
      ≡ nginx_columns_of (form.system_nginx_sites ++ form.new_system_nginx_sites)
unfolding nginx_columns form_entries ◌===◌ form_values
nginx_columns-form_entries vpn tab form = simp columns

module _ (rows : List NginxRow) where
  nginx_row_count-nginx_columns_of : nginx_row_count (nginx_columns_of rows) ≡ length rows
  unfolding nginx_row_count
  nginx_row_count-nginx_columns_of =
      max_len-map rows (λ r. r.id)
        ((λ r. r.server_name)
          ∷ (λ r. r.listen_port)
          ∷ (λ r. r.ssl)
          ∷ (λ r. r.http2)
          ∷ (λ r. r.mode)
          ∷ (λ r. r.cert_path)
          ∷ (λ r. r.key_path)
          ∷ (λ r. r.ssl_config_path)
          ∷ (λ r. r.ssl_dhparam_path)
          ∷ (λ r. r.root_path)
          ∷ (λ r. r.index_files)
          ∷ (λ r. r.proxy_pass_url)
          ∷ (λ r. r.static_alias_path)
          ∷ (λ r. r.php_enabled)
          ∷ (λ r. r.php_socket)
          ∷ (λ r. r.phpmyadmin_enabled)
          ∷ (λ r. r.phpmyadmin_socket)
          ∷ (λ r. r.proxy_buffering_off)
          ∷ (λ r. r.access_log_off_static)
          ∷ (λ r. r.static_expires)
          ∷ (λ r. r.static_cache_control)
          ∷ [])

  nginx_site_at-nginx_columns_of :
      (j : ℕ) (r : NginxRow)
      → get_elem? rows j ≡ some r
      → nginx_site_at (nginx_columns_of rows) (0 + j) ≡ read_nginx_site r
  unfolding nginx_site_at
  nginx_site_at-nginx_columns_of j r h =
      let index : 0 + j ≡ j = omega arith in
      let at = λ (g : NginxRow → Text). value_at-map g rows j h in rw index (simp at)

-- From the form of the system server, submitted while it is edited, the handler reads the sites that the
-- page shows, the new ones behind the others, but for those without a name, a root and a target.
pub load_system_nginx_sites-form_entries :
    (vpn : Bool) (tab : Text) (form : ServerConfigForm)
    → load_system_nginx_sites (form_entries true true vpn tab form)
      ≡ keep_sites (map read_nginx_site (form.system_nginx_sites ++ form.new_system_nginx_sites))
unfolding load_system_nginx_sites
load_system_nginx_sites-form_entries vpn tab form =
    let rows = form.system_nginx_sites ++ form.new_system_nginx_sites in
    rw (nginx_columns-form_entries vpn tab form, nginx_row_count-nginx_columns_of rows)
      (ap keep_sites (
        tabulate-map read_nginx_site (nginx_site_at (nginx_columns_of rows)) rows 0
          (nginx_site_at-nginx_columns_of rows)))
