-- ===== src/Update/NginxSites.antt =====
-- The sites of the system's own Nginx, as the handler reads them: `loadSystemNginxSites` of
-- internal/handlers/serverconfiguration_update.go.
pub mod Rows
use go_resolver.Base.{Text, ℕ, Bool, not, ◌&&◌, List, [], ◌∷◌, codes, ◌===◌, if◌then◌else◌}
use go_resolver.Base.Int.{ℤ}
use go_resolver.Update.Numbers.{trim_space, atoi_or_zero}
use go_resolver.Update.Submission.{Entries}
use go_resolver.Update.Reading.{form_values, value_at, max_from, max_len, tabulate}

-- The variables of `loadSystemNginxSites`.
pub record NginxColumns : Type 0 where
  pub id : List Text
  pub server_name : List Text
  pub listen_port : List Text
  pub ssl : List Text
  pub http2 : List Text
  pub mode : List Text
  pub cert_path : List Text
  pub key_path : List Text
  pub ssl_config_path : List Text
  pub ssl_dhparam_path : List Text
  pub root_path : List Text
  pub index_files : List Text
  pub proxy_pass_url : List Text
  pub static_alias_path : List Text
  pub php_enabled : List Text
  pub php_socket : List Text
  pub phpmyadmin_enabled : List Text
  pub phpmyadmin_socket : List Text
  pub proxy_buffering_off : List Text
  pub access_log_off_static : List Text
  pub static_expires : List Text
  pub static_cache_control : List Text

unfoldable pub nginx_columns : Entries → NginxColumns
nginx_columns form = record {
  id = form_values (codes "system_site_id[]") form;
  server_name = form_values (codes "system_site_server_name[]") form;
  listen_port = form_values (codes "system_site_listen_port[]") form;
  ssl = form_values (codes "system_site_ssl[]") form;
  http2 = form_values (codes "system_site_http2[]") form;
  mode = form_values (codes "system_site_mode[]") form;
  cert_path = form_values (codes "system_site_cert_path[]") form;
  key_path = form_values (codes "system_site_key_path[]") form;
  ssl_config_path = form_values (codes "system_site_ssl_config_path[]") form;
  ssl_dhparam_path = form_values (codes "system_site_ssl_dhparam_path[]") form;
  root_path = form_values (codes "system_site_root_path[]") form;
  index_files = form_values (codes "system_site_index_files[]") form;
  proxy_pass_url = form_values (codes "system_site_proxy_pass_url[]") form;
  static_alias_path = form_values (codes "system_site_static_alias_path[]") form;
  php_enabled = form_values (codes "system_site_php_enabled[]") form;
  php_socket = form_values (codes "system_site_php_socket[]") form;
  phpmyadmin_enabled = form_values (codes "system_site_phpmyadmin_enabled[]") form;
  phpmyadmin_socket = form_values (codes "system_site_phpmyadmin_socket[]") form;
  proxy_buffering_off = form_values (codes "system_site_proxy_buffering_off[]") form;
  access_log_off_static = form_values (codes "system_site_access_log_off_static[]") form;
  static_expires = form_values (codes "system_site_static_expires[]") form;
  static_cache_control = form_values (codes "system_site_static_cache_control[]") form;
}

-- `models.SystemNginxSite`
pub record NginxSite : Type 0 where
  pub id : Text
  pub server_name : Text
  pub listen_port : ℤ
  pub ssl : Bool
  pub http2 : Bool
  pub mode : Text
  pub cert_path : Text
  pub key_path : Text
  pub ssl_config_path : Text
  pub ssl_dhparam_path : Text
  pub root_path : Text
  pub index_files : Text
  pub proxy_pass_url : Text
  pub static_alias_path : Text
  pub php_enabled : Bool
  pub php_socket : Text
  pub phpmyadmin_enabled : Bool
  pub phpmyadmin_socket : Text
  pub proxy_buffering_off : Bool
  pub access_log_off_static : Bool
  pub static_expires : Text
  pub static_cache_control : Text

unfoldable pub nginx_site_at : NginxColumns → ℕ → NginxSite
nginx_site_at d i = record {
  id = trim_space (value_at d.id i);
  server_name = trim_space (value_at d.server_name i);
  listen_port = atoi_or_zero (value_at d.listen_port i);
  ssl = value_at d.ssl i === codes "1";
  http2 = value_at d.http2 i === codes "1";
  mode = trim_space (value_at d.mode i);
  cert_path = trim_space (value_at d.cert_path i);
  key_path = trim_space (value_at d.key_path i);
  ssl_config_path = trim_space (value_at d.ssl_config_path i);
  ssl_dhparam_path = trim_space (value_at d.ssl_dhparam_path i);
  root_path = trim_space (value_at d.root_path i);
  index_files = trim_space (value_at d.index_files i);
  proxy_pass_url = trim_space (value_at d.proxy_pass_url i);
  static_alias_path = trim_space (value_at d.static_alias_path i);
  php_enabled = value_at d.php_enabled i === codes "1";
  php_socket = trim_space (value_at d.php_socket i);
  phpmyadmin_enabled = value_at d.phpmyadmin_enabled i === codes "1";
  phpmyadmin_socket = trim_space (value_at d.phpmyadmin_socket i);
  proxy_buffering_off = value_at d.proxy_buffering_off i === codes "1";
  access_log_off_static = value_at d.access_log_off_static i === codes "1";
  static_expires = trim_space (value_at d.static_expires i);
  static_cache_control = trim_space (value_at d.static_cache_control i);
}

unfoldable pub nginx_row_count : NginxColumns → ℕ
unfolding max_from
nginx_row_count d = max_len (
    d.id ∷ d.server_name ∷ d.listen_port ∷ d.ssl ∷ d.http2 ∷ d.mode ∷ d.cert_path ∷ d.key_path
    ∷ d.ssl_config_path ∷ d.ssl_dhparam_path ∷ d.root_path ∷ d.index_files ∷ d.proxy_pass_url
    ∷ d.static_alias_path ∷ d.php_enabled ∷ d.php_socket ∷ d.phpmyadmin_enabled
    ∷ d.phpmyadmin_socket ∷ d.proxy_buffering_off ∷ d.access_log_off_static ∷ d.static_expires
    ∷ d.static_cache_control ∷ [])

-- Whether the loop leaves the site out.
abbrev pub is_blank : NginxSite → Bool
is_blank site = (site.server_name === []) && (site.proxy_pass_url === []) && (site.root_path === [])

-- The sites that are kept.
unfoldable pub keep_sites : List NginxSite → List NginxSite
keep_sites [] = []
keep_sites (site ∷ sites) =
    let rest = keep_sites sites in if is_blank site then rest else site ∷ rest

unfoldable pub load_system_nginx_sites : Entries → List NginxSite
load_system_nginx_sites form =
    let d = nginx_columns form in keep_sites (tabulate (nginx_row_count d) 0 (nginx_site_at d))
