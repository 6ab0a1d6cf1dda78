-- ===== src/Update/Tests.antt =====
-- A run of the handler with a service that keeps a log, and the theorems at concrete forms.
use go_resolver.Base.{
  Text, ◌≡◌, refl, arith, true, false, none, some, List, [], ◌∷◌, ◌++◌, codes, ◌===◌, if◌then◌else◌,
  Digits, value, decimal,
}
use go_resolver.Base.Int.{pos, negsuc}
use go_resolver.Base.Trim.{trim_by}
use go_resolver.FormState.Sites.{SiteRow, empty_site_row, empty_error_page_row, number_text}
use go_resolver.FormState.Nginx.{empty_system_nginx_site_row}
use go_resolver.FormState.Policies.{no_ddos_policy, no_fail2ban_policy, map_ddos, map_fail2ban}
use go_resolver.FormState.State.{
  ServerConfigForm, ServerConfigurationPage, build_server_config_form_state,
}
use go_resolver.Update.Numbers.{is_go_space, trim_space, atoi_or_zero, atoi}
use go_resolver.Update.Numbers.Bounds.{cut, atoi_or_zero-Digits}
use go_resolver.Update.Submission.{form_entries, crlf}
use go_resolver.Update.Reading.{
  form_values, value_at, max_from, tabulate, site_columns, configuration_row_at,
  configuration_row_count,
}
use go_resolver.Update.Sites.{configuration_rows}
use go_resolver.Update.ErrorPages.{
  page_rows, file_rows, page_columns, page_row_at, page_row_count, file_columns, file_row_at,
  file_row_count,
}
use go_resolver.Update.NginxSites.{
  nginx_columns, nginx_site_at, nginx_row_count, keep_sites, load_system_nginx_sites,
}
use go_resolver.Update.Policies.{complete_ddos, read_ddos, read_fail2ban}
use go_resolver.Update.Policies.Kept.{ddos_settings, fail2ban_settings}
use go_resolver.Update.Policies.Unchanged.{
  StoredPolicy, settings_of, policy_of, IsStored, read_ddos-unchanged,
}
use go_resolver.Update.Service.{Call, Service, sites_and_rest, each}
use go_resolver.Update.Handler.{
  is_system_server_id, see_other, save_site_row, update_managed, update_system, update, read_header,
}
use go_resolver.Update.Handler.Shown.{failed_nginx, ddos_steps, fail2ban_steps}
use go_resolver.Update.Handler.Steps.{carry_out, concat}
use go_resolver.Update.Handler.Stages.{kept}
use go_resolver.Update.Handler.Refined.{update-system}

updating : Unit {0}
unfolding form_entries form_values value_at max_from tabulate site_columns configuration_row_at
    configuration_row_count configuration_rows page_rows page_columns page_row_at page_row_count
    file_rows file_columns file_row_at file_row_count nginx_columns nginx_site_at nginx_row_count
    keep_sites load_system_nginx_sites read_ddos read_fail2ban is_system_server_id read_header
    update_managed update_system update save_site_row trim_space trim_by is_go_space atoi_or_zero
    atoi complete_ddos each ◌===◌ empty_site_row empty_error_page_row empty_system_nginx_site_row
    map_ddos map_fail2ban number_text decimal value build_server_config_form_state
updating = tt

-- A service that writes down what it is called for, and fails for the site "bad".
abbrev noted : Text → Call (List Text)
noted what log = (log ++ what ∷ [], none)

abbrev site_call : Text → Text → Call (List Text)
site_call what name log =
    if name === codes "bad" then (log, some (codes "no")) else noted (what ++ name) log

abbrev logging : Service (List Text)
logging = record {
  insert_site = λ _ row. site_call (codes "insert ") row.name;
  update_site = λ _ _ row. site_call (codes "update ") row.name;
  insert_error_page = λ _ _. noted (codes "insert page");
  save_error_page = λ _ _. noted (codes "save page");
  update_error_file = λ _. noted (codes "save file");
  save_ddos_policy = λ _ _. noted (codes "ddos");
  apply_ddos_iptables = λ _ _. noted (codes "iptables");
  deploy_system_nginx = noted (codes "deploy system");
  site_names = λ _ _. codes "a" ∷ codes "a" ∷ [];
  deploy_nginx = λ name. noted (codes "deploy " ++ name);
  import_nginx = λ _. sites_and_rest [] [];
  save_system_nginx = λ _ _. noted (codes "save nginx");
  save_fail2ban_policy = λ _ _. noted (codes "fail2ban");
  enforce_fail2ban = λ log. log;
  assign_vpn_ip = λ _ _. noted (codes "address");
}

abbrev old_site : SiteRow
unfolding updating
old_site = record empty_site_row { id = codes "4"; server_name = codes " a " }

abbrev new_site : SiteRow
unfolding updating
new_site = record empty_site_row { server_name = codes "b" }

abbrev form : ServerConfigForm
unfolding updating
form = record {
  top_server_name = codes "edge";
  system_nginx_config = [];
  system_nginx_import = [];
  system_nginx_sites = record empty_system_nginx_site_row { server_name = codes "panel" } ∷ [];
  new_system_nginx_sites = [];
  vpn_ip = codes "10.0.0.2";
  vpn_file = [];
  sites = old_site ∷ [];
  new_sites = empty_site_row ∷ new_site ∷ [];
  error_pages = [];
  new_error_pages = record empty_error_page_row { error_page_id = codes "f" } ∷ [];
  error_files = [];
  ddos = map_ddos no_ddos_policy;
  fail2ban = map_fail2ban no_fail2ban_policy;
}

system : is_system_server_id (codes "0") ≡ true
unfolding updating
system = refl

update_tests :
    (update logging (codes "7") (some (form_entries false true true (codes "tab3") form)) [] ≡ (
      codes "update a"
          ∷ codes "insert b"
          ∷ codes "insert page"
          ∷ codes "ddos"
          ∷ codes "iptables"
          ∷ codes "deploy a"
          ∷ codes "fail2ban"
          ∷ codes "address"
          ∷ [],
      see_other (codes "7") (codes "tab3"),
    ))
    × (update logging (codes "0") (some (form_entries true true false (codes "tab2") form)) [] ≡ (
      codes "ddos"
          ∷ codes "iptables"
          ∷ codes "deploy system"
          ∷ codes "save nginx"
          ∷ codes "fail2ban"
          ∷ [],
      see_other (codes "0") (codes "tab2"),
    ))
unfolding updating
update_tests = (refl, refl)

update-system_example :
    update logging (codes "0") (some (form_entries true true false (codes "tab2") form)) []
    ≡ carry_out
        (concat (
          ddos_steps logging
            (codes "0")
            (complete_ddos (ddos_settings form.ddos))
            logging.deploy_system_nginx
          ∷ ((
            failed_nginx,
            logging.save_system_nginx
                (crlf form.system_nginx_config)
                (kept (form.system_nginx_sites ++ form.new_system_nginx_sites)),
          )
              ∷ [])
          ∷ fail2ban_steps logging (codes "0") (fail2ban_settings form.fail2ban)
          ∷ []))
        (λ t. (t, see_other (codes "0") (codes "tab2")))
        []
update-system_example = update-system logging (codes "0") (codes "tab2") form system false []

crlf_tests : crlf (97 ∷ 10 ∷ 13 ∷ 10 ∷ 98 ∷ 13 ∷ []) ≡ 97 ∷ 13 ∷ 10 ∷ 13 ∷ 10 ∷ 98 ∷ 13 ∷ 10 ∷ []
unfolding crlf
crlf_tests = refl

number_tests :
    (atoi_or_zero (codes " -12 ") ≡ negsuc 11)
    × (atoi_or_zero (codes "12x") ≡ pos 0)
    × (atoi_or_zero (codes "99999999999999999999x") ≡ pos 9_223_372_036_854_775_807)
unfolding updating
number_tests = (refl, refl, refl)

large-Digits : Digits (codes "9999999999999999999")
large-Digits = ground arith

atoi_or_zero-Digits_example :
    atoi_or_zero (codes "9999999999999999999") ≡ pos (cut (value (codes "9999999999999999999")))
atoi_or_zero-Digits_example =
    atoi_or_zero-Digits (codes "9999999999999999999") (λ e. cc) large-Digits

abbrev medium : StoredPolicy
medium = record {
  enabled = true;
  mode = codes "challenge";
  preset = codes "medium";
  rate_limit = 10;
  burst = 20;
  conn_limit = 50;
  syn_rate = 10;
  syn_burst = 20;
  challenge_delay = 5;
  cookie_ttl = 3600;
  whitelist = codes "10.0.0.0/8";
}

medium-IsStored : IsStored medium
unfolding updating
medium-IsStored = record {
  complete = refl;
  mode = λ e. cc;
  preset = λ e. cc;
  trimmed = refl;
  rate_limit = omega arith;
  burst = omega arith;
  conn_limit = omega arith;
  syn_rate = omega arith;
  syn_burst = omega arith;
  challenge_delay = omega arith;
  cookie_ttl = omega arith;
}

abbrev page : ServerConfigurationPage
page = record {
  sites = none;
  server_name = none;
  ip = none;
  system_nginx_config = none;
  system_nginx_sites = none;
  vpn_file = none;
  error_pages = none;
  error_files = none;
  ddos_policy = some (policy_of medium);
  fail2ban_policy = none;
}

read_ddos-unchanged_example :
    read_ddos (form_entries false true true (codes "tab7") (build_server_config_form_state page))
    ≡ settings_of medium
read_ddos-unchanged_example =
    read_ddos-unchanged medium medium-IsStored false true (codes "tab7") page refl
