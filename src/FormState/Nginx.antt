-- ===== src/FormState/Nginx.antt =====
-- The virtual hosts of the system's own Nginx: `SystemNginxSite` of web/frontend/src/types.ts, and
-- `mapSystemNginxSite` and `emptySystemNginxSiteRow` of
-- web/frontend/src/pages/server-config-helpers.ts.
pub mod Spelling
use go_resolver.Base.{
  Text, ℕ, Bool, false, Option, none, [], codes, decimal, value_or, or_else, flag, text_or_empty,
}

-- The fields of a site in one of the two spellings that the server may use; `none` is a missing or
-- null field.
pub record NginxFields : Type 0 where
  pub server_name : Option Text
  pub listen_port : Option ℕ
  pub ssl : Option Bool
  pub http2 : Option Bool
  pub mode : Option Text
  pub cert_path : Option Text
  pub key_path : Option Text
  pub ssl_config_path : Option Text
  pub ssl_dhparam_path : Option Text
  pub root_path : Option Text
  pub index_files : Option Text
  pub proxy_pass_url : Option Text
  pub static_alias_path : Option Text
  pub php_enabled : Option Bool
  pub php_socket : Option Text
  pub phpmyadmin_enabled : Option Bool
  pub phpmyadmin_socket : Option Text
  pub proxy_buffering_off : Option Bool
  pub access_log_off_static : Option Bool
  pub static_expires : Option Text
  pub static_cache_control : Option Text

-- A site with its fields spelled `ServerName` (`upper`) and `server_name` (`lower`).
pub record SystemNginxSite : Type 0 where
  pub id : Option Text
  pub upper : NginxFields
  pub lower : NginxFields

abbrev pub no_fields : NginxFields
no_fields = record {
  server_name = none;
  listen_port = none;
  ssl = none;
  http2 = none;
  mode = none;
  cert_path = none;
  key_path = none;
  ssl_config_path = none;
  ssl_dhparam_path = none;
  root_path = none;
  index_files = none;
  proxy_pass_url = none;
  static_alias_path = none;
  php_enabled = none;
  php_socket = none;
  phpmyadmin_enabled = none;
  phpmyadmin_socket = none;
  proxy_buffering_off = none;
  access_log_off_static = none;
  static_expires = none;
  static_cache_control = none;
}

-- A row of the form: every field is a text.
pub record NginxRow : Type 0 where
  pub id : Text
  pub server_name : Text
  pub listen_port : Text
  pub ssl : Text
  pub http2 : Text
  pub mode : Text
  pub cert_path : Text
  pub key_path : Text
  pub ssl_config_path : Text
  pub ssl_dhparam_path : Text
  pub root_path : Text
  pub index_files : Text
  pub proxy_pass_url : Text
  pub static_alias_path : Text
  pub php_enabled : Text
  pub php_socket : Text
  pub phpmyadmin_enabled : Text
  pub phpmyadmin_socket : Text
  pub proxy_buffering_off : Text
  pub access_log_off_static : Text
  pub static_expires : Text
  pub static_cache_control : Text

-- `site.A ?? site.a ?? fallback`
abbrev pub either_or {ℓ} : {A : Type ℓ} → Option A → Option A → A → A
either_or upper lower fallback = value_or (or_else upper lower) fallback

unfoldable pub map_system_nginx_site : SystemNginxSite → NginxRow
map_system_nginx_site site = record {
  id = text_or_empty site.id;
  server_name = either_or site.upper.server_name site.lower.server_name [];
  listen_port = decimal (either_or site.upper.listen_port site.lower.listen_port 443);
  ssl = flag (either_or site.upper.ssl site.lower.ssl false);
  http2 = flag (either_or site.upper.http2 site.lower.http2 false);
  mode = either_or site.upper.mode site.lower.mode (codes "proxy");
  cert_path = either_or site.upper.cert_path site.lower.cert_path [];
  key_path = either_or site.upper.key_path site.lower.key_path [];
  ssl_config_path = either_or site.upper.ssl_config_path site.lower.ssl_config_path [];
  ssl_dhparam_path = either_or site.upper.ssl_dhparam_path site.lower.ssl_dhparam_path [];
  root_path = either_or site.upper.root_path site.lower.root_path [];
  index_files =
      either_or site.upper.index_files site.lower.index_files (codes "index.php index.html");
  proxy_pass_url = either_or site.upper.proxy_pass_url site.lower.proxy_pass_url [];
  static_alias_path = either_or site.upper.static_alias_path site.lower.static_alias_path [];
  php_enabled = flag (either_or site.upper.php_enabled site.lower.php_enabled false);
  php_socket = either_or site.upper.php_socket site.lower.php_socket [];
  phpmyadmin_enabled =
      flag (either_or site.upper.phpmyadmin_enabled site.lower.phpmyadmin_enabled false);
  phpmyadmin_socket = either_or site.upper.phpmyadmin_socket site.lower.phpmyadmin_socket [];
  proxy_buffering_off =
      flag (either_or site.upper.proxy_buffering_off site.lower.proxy_buffering_off false);
  access_log_off_static =
      flag (either_or site.upper.access_log_off_static site.lower.access_log_off_static false);
  static_expires = either_or site.upper.static_expires site.lower.static_expires (codes "1h");
  static_cache_control =
      either_or site.upper.static_cache_control site.lower.static_cache_control (codes "public");
}

unfoldable pub empty_system_nginx_site_row : NginxRow
empty_system_nginx_site_row = record {
  id = [];
  server_name = [];
  listen_port = codes "443";
  ssl = codes "1";
  http2 = codes "1";
  mode = codes "static";
  cert_path = [];
  key_path = [];
  ssl_config_path = codes "/etc/letsencrypt/options-ssl-nginx.conf";
  ssl_dhparam_path = codes "/etc/letsencrypt/ssl-dhparams.pem";
  root_path = codes "/var/www/html";
  index_files = codes "index.php index.html";
  proxy_pass_url = [];
  static_alias_path = [];
  php_enabled = codes "0";
  php_socket = codes "/run/php/php8.1-fpm.sock";
  phpmyadmin_enabled = codes "0";
  phpmyadmin_socket = codes "/run/php/phpmyadmin.sock";
  proxy_buffering_off = codes "1";
  access_log_off_static = codes "1";
  static_expires = codes "1h";
  static_cache_control = codes "public";
}
