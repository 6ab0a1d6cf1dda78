-- ===== src/FormState/Tests.antt =====
-- Runs of the functions of the form's state, and the theorems at concrete pages and rows.
use go_resolver.Base.{ℕ, ◌≡◌, refl, [], ◌∷◌, List, none, some, codes, ◌===◌, decimal}
use go_resolver.FormState.Nginx.{NginxFields, no_fields, map_system_nginx_site}
use go_resolver.FormState.Rules.{default_rule_form, apply_rule_type_defaults}
use go_resolver.FormState.Sites.{
  ServerConfiguration, number_or, number_or_empty, number_text, map_site, empty_site_row,
  map_error_page, map_error_file,
}
use go_resolver.FormState.Sites.RoundTrip.{IsRead, map_site-IsRead}
use go_resolver.FormState.Policies.{no_ddos_policy, map_ddos, map_fail2ban}
use go_resolver.FormState.State.{
  ServerConfigurationPage, is_real, real_sites, build_server_config_form_state, update_list_item,
}

forming : Unit {0}
unfolding map_system_nginx_site default_rule_form apply_rule_type_defaults number_or number_or_empty
    number_text map_site empty_site_row map_error_page map_error_file map_ddos map_fail2ban is_real
    real_sites build_server_config_form_state update_list_item ◌===◌ decimal
forming = tt

abbrev site : ServerConfiguration
site = record {
  id = 12;
  server_name = some (codes "a.example");
  site_enabled = none;
  server_port = some 8443;
  ssl_enabled = some 1;
  ssl_redirect = none;
  hsts = none;
  proxy_pass_port = some 0;
  proxy_intercept_errors = none;
  proxy_connect_timeout = some 0;
  proxy_read_timeout = some 60;
  proxy_send_timeout = none;
  websockets = some 1;
}

abbrev dummy : ServerConfiguration
dummy = record site { server_name = some (codes "dummy") }

abbrev page : ServerConfigurationPage
page = record {
  sites = some (dummy ∷ site ∷ []);
  server_name = some (codes "edge");
  ip = none;
  system_nginx_config = none;
  system_nginx_sites = none;
  vpn_file = none;
  error_pages = none;
  error_files = none;
  ddos_policy = none;
  fail2ban_policy = none;
}

page_tests :
    ((build_server_config_form_state page).sites ≡ map_site site ∷ [])
    × ((map_site site).server_port ≡ codes "8443")
    × ((map_site site).site_enabled ≡ codes "1")
    × ((map_site site).proxy_connect_timeout ≡ codes "5")
    × ((map_site site).proxy_pass_port ≡ [])
    × ((map_ddos no_ddos_policy).preset ≡ codes "medium")
    × ((apply_rule_type_defaults (codes "dnat") default_rule_form).rule_chain ≡ codes "PREROUTING")
unfolding forming
page_tests = (refl, refl, refl, refl, refl, refl, refl)

abbrev rows : List ℕ
rows = 1 ∷ 2 ∷ []

abbrev seven : ℕ → ℕ
seven _ = 7

update_test : update_list_item rows 1 seven ≡ 1 ∷ 7 ∷ []
unfolding forming
update_test = refl

map_site-IsRead_example : IsRead site (map_site site)
map_site-IsRead_example = map_site-IsRead site

abbrev static_site : NginxFields
static_site = record no_fields { listen_port = some 80; mode = some (codes "static") }
