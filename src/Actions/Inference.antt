-- ===== src/Actions/Inference.antt =====
-- `inferServerConfigurationAction` of internal/handlers/serverconfiguration_actions.go: the action of a form
-- that names none, guessed from its fields.
use go_resolver.Base.{
  Text, Bool, true, false, not, ◌&&◌, ◌||◌, none, some, List, [], ◌∷◌, codes, ◌===◌, lookup,
  if◌then◌else◌,
}
use go_resolver.Update.Numbers.{trim_space}
use go_resolver.Update.Submission.{Entries}
use go_resolver.Update.Reading.{form_values, form_value}

-- `serverConfigurationUpdateKeys`
unfoldable pub update_keys : List Text
update_keys =
    codes "top_server_name"
    ∷ codes "system_nginx_config"
    ∷ codes "system_nginx_import"
    ∷ codes "system_site_id[]"
    ∷ codes "system_site_server_name[]"
    ∷ codes "system_site_listen_port[]"
    ∷ codes "system_site_ssl[]"
    ∷ codes "system_site_http2[]"
    ∷ codes "system_site_mode[]"
    ∷ codes "system_site_cert_path[]"
    ∷ codes "system_site_key_path[]"
    ∷ codes "system_site_ssl_config_path[]"
    ∷ codes "system_site_ssl_dhparam_path[]"
    ∷ codes "system_site_root_path[]"
    ∷ codes "system_site_index_files[]"
    ∷ codes "system_site_proxy_pass_url[]"
    ∷ codes "system_site_static_alias_path[]"
    ∷ codes "system_site_php_enabled[]"
    ∷ codes "system_site_php_socket[]"
    ∷ codes "system_site_phpmyadmin_enabled[]"
    ∷ codes "system_site_phpmyadmin_socket[]"
    ∷ codes "system_site_proxy_buffering_off[]"
    ∷ codes "system_site_access_log_off_static[]"
    ∷ codes "system_site_static_expires[]"
    ∷ codes "system_site_static_cache_control[]"
    ∷ codes "vpn_ip"
    ∷ codes "vpn_file"
    ∷ codes "id[]"
    ∷ codes "server_name[]"
    ∷ codes "site_enabled[]"
    ∷ codes "server_port[]"
    ∷ codes "ssl_enabled[]"
    ∷ codes "ssl_redirect[]"
    ∷ codes "hsts[]"
    ∷ codes "proxy_pass_port[]"
    ∷ codes "proxy_intercept_errors[]"
    ∷ codes "proxy_connect_timeout[]"
    ∷ codes "proxy_read_timeout[]"
    ∷ codes "proxy_send_timeout[]"
    ∷ codes "Websockets[]"
    ∷ codes "error_page_id[]"
    ∷ codes "site_id[]"
    ∷ codes "error_file_id[]"
    ∷ codes "enabled[]"
    ∷ codes "error_page_file_id[]"
    ∷ codes "error_code[]"
    ∷ codes "response_type[]"
    ∷ codes "ddos_enabled"
    ∷ codes "ddos_mode"
    ∷ codes "ddos_preset"
    ∷ codes "ddos_rate_limit"
    ∷ codes "ddos_burst"
    ∷ codes "ddos_conn_limit"
    ∷ codes "ddos_syn_rate"
    ∷ codes "ddos_syn_burst"
    ∷ codes "ddos_challenge_delay"
    ∷ codes "ddos_cookie_ttl"
    ∷ codes "ddos_whitelist"
    ∷ codes "fail2ban_enabled"
    ∷ codes "fail2ban_max_retry"
    ∷ codes "fail2ban_find_time"
    ∷ codes "fail2ban_ban_time"
    ∷ codes "fail2ban_status_codes"
    ∷ codes "fail2ban_ignore_ips"
    ∷ codes "fail2ban_use_xff"
    ∷ codes "fail2ban_ban_globally"
    ∷ []

abbrev pub any_filled : List Text → Bool
any_filled [] = false
any_filled (value ∷ values) = not (trim_space value === []) || any_filled values

-- `hasFormValue`
unfoldable pub has_form_value : Entries → Text → Bool
has_form_value form key = any_filled (form_values key form)

-- `hasAnyFormValue`
unfoldable pub has_any_form_value : Entries → List Text → Bool
unfolding has_form_value
has_any_form_value form [] = false
has_any_form_value form (key ∷ keys) = has_form_value form key || has_any_form_value form keys

-- `hasFormKey`
unfoldable pub has_form_key : Entries → Text → Bool
has_form_key form key = elim (lookup key form) [ none ↦ false | some _ ↦ true ]

-- The loop of `looksLikeServerConfigurationUpdate`.
unfoldable pub has_any_form_key : Entries → List Text → Bool
unfolding has_form_key
has_any_form_key form [] = false
has_any_form_key form (key ∷ keys) = has_form_key form key || has_any_form_key form keys

abbrev pub rule_keys : List Text
rule_keys =
    codes "rule_type"
    ∷ codes "rule_table"
    ∷ codes "rule_chain"
    ∷ codes "rule_action"
    ∷ codes "source_ip"
    ∷ codes "dest_ip"
    ∷ []

abbrev pub file_keys : List Text
file_keys = codes "Filename" ∷ codes "Path" ∷ []

unfoldable pub names_rule : Entries → Bool
unfolding has_form_value
names_rule form =
    has_form_value form (codes "table")
    && (has_form_value form (codes "chain") && has_form_value form (codes "comment"))

-- The last part of `inferServerConfigurationAction`.
unfoldable pub infer_update : Entries → Text
unfolding has_any_form_key update_keys
infer_update form = if has_any_form_key form update_keys then codes "update" else []

-- The switch of `inferServerConfigurationAction` over the tab.
unfoldable pub infer_at_tab : Text → Entries → Text
unfolding infer_update has_any_form_value names_rule
infer_at_tab tab form =
    let id = has_form_value form (codes "id") in
    let named = id && has_form_value form (codes "serverName") in
    let rest = infer_update form in
    if tab === codes "tab3"
    then (if named then codes "delete" else rest)
    else if tab === codes "tab4"
    then (if named then codes "issue_cert" else rest)
    else if tab === codes "tab5"
    then (if not id
        then rest
        else if has_any_form_value form file_keys
        then codes "delete_error_file"
        else codes "delete_error_page")
    else if tab === codes "tab6"
    then (if names_rule form
        then codes "delete_rule"
        else if has_any_form_value form rule_keys
        then codes "add_rule"
        else rest)
    else if tab === codes "tab8"
    then (if has_form_value form (codes "fail2ban_ip") then codes "unban_fail2ban" else rest)
    else rest

-- `inferServerConfigurationAction`
unfoldable pub infer_action : Entries → Text
unfolding infer_at_tab
infer_action form =
    if has_form_value form (codes "fail2ban_ip")
    then codes "unban_fail2ban"
    else if names_rule form
    then codes "delete_rule"
    else if has_any_form_value form rule_keys
    then codes "add_rule"
    else if has_form_value form (codes "id") && has_any_form_value form file_keys
    then codes "delete_error_file"
    else if has_form_value form (codes "pass") && has_form_value form (codes "vpn_ip")
    then codes "create-vpn-file"
    else infer_at_tab (trim_space (form_value (codes "active_tab") form)) form
