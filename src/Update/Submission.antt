-- ===== src/Update/Submission.antt =====
-- What the browser submits for the form `server-config-update` of
-- web/frontend/src/pages/server-config-page.tsx: the names and values of its controls in the order of
-- the page. A disabled control is not submitted, a hidden input always is, and a check box only if it
-- is checked. Every panel of the tabs is mounted. The value of a select is taken as it is in the state,
-- so it is to be one of its options, and that of an input of one line too, so it is to have no line
-- break; those of a text area are sent as CR LF. `has_vpn` is whether the page has a VPN profile.
use go_resolver.Base.{
  Text, Bool, false, ◌==◌, not, ◌&&◌, List, [], ◌∷◌, ◌++◌, codes, if◌then◌else◌, flat_map,
}
use go_resolver.FormState.Nginx.{NginxRow}
use go_resolver.FormState.Sites.{SiteRow, ErrorPageRow, ErrorFileRow}
use go_resolver.FormState.Policies.{DdosForm, Fail2banForm}
use go_resolver.FormState.State.{ServerConfigForm}

abbrev pub Entries : Type 0
Entries = List (Text × Text)

-- The controls that are enabled, or shown, under a test.
abbrev pub when : Bool → Entries → Entries
when test entries = if test then entries else []

-- The line breaks of a text, CR LF, LF or CR, as CR LF; the test is whether a CR stands in front.
unfoldable crlf_after : Bool → Text → Text
crlf_after after_cr [] = []
crlf_after after_cr (c ∷ s) =
    let rest = crlf_after (c == 13) s in
    if c == 13
    then 13 ∷ 10 ∷ rest
    else if c == 10
    then (if after_cr then rest else 13 ∷ 10 ∷ rest)
    else c ∷ rest

-- What a text area sends.
unfoldable pub crlf : Text → Text
unfolding crlf_after
crlf = crlf_after false

-- `SiteRow`
unfoldable pub site_inputs : Bool → SiteRow → Entries
site_inputs editable site =
    (codes "id[]", site.id)
    ∷ when editable (
        (codes "server_name[]", site.server_name)
        ∷ (codes "site_enabled[]", site.site_enabled)
        ∷ (codes "server_port[]", site.server_port)
        ∷ (codes "ssl_enabled[]", site.ssl_enabled)
        ∷ (codes "ssl_redirect[]", site.ssl_redirect)
        ∷ (codes "hsts[]", site.hsts)
        ∷ (codes "proxy_pass_port[]", site.proxy_pass_port)
        ∷ (codes "proxy_intercept_errors[]", site.proxy_intercept_errors)
        ∷ (codes "proxy_connect_timeout[]", site.proxy_connect_timeout)
        ∷ (codes "proxy_read_timeout[]", site.proxy_read_timeout)
        ∷ (codes "proxy_send_timeout[]", site.proxy_send_timeout)
        ∷ (codes "Websockets[]", site.websockets)
        ∷ [])

-- `ErrorPageRow`
unfoldable pub error_page_inputs : Bool → ErrorPageRow → Entries
error_page_inputs editable page =
    (codes "error_page_id[]", page.id)
    ∷ when editable (
        (codes "site_id[]", page.site_id)
        ∷ (codes "error_file_id[]", page.error_page_id)
        ∷ (codes "enabled[]", page.enabled)
        ∷ [])

-- A row of the error page files.
unfoldable pub error_file_inputs : Bool → ErrorFileRow → Entries
error_file_inputs editable f =
    (codes "error_page_file_id[]", f.id)
    ∷ when editable
        ((codes "error_code[]", f.error_code) ∷ (codes "response_type[]", f.response_type) ∷ [])

-- `SystemNginxSiteRow`
unfoldable pub nginx_row_inputs : Bool → NginxRow → Entries
nginx_row_inputs editable site =
    (codes "system_site_id[]", site.id)
    ∷ when editable (
        (codes "system_site_server_name[]", site.server_name)
        ∷ (codes "system_site_mode[]", site.mode)
        ∷ (codes "system_site_listen_port[]", site.listen_port)
        ∷ (codes "system_site_ssl[]", site.ssl)
        ∷ (codes "system_site_http2[]", site.http2)
        ∷ (codes "system_site_root_path[]", site.root_path)
        ∷ (codes "system_site_proxy_pass_url[]", site.proxy_pass_url)
        ∷ [])

-- The panel of a site under "Selected Host Details".
unfoldable pub nginx_detail_inputs : Bool → NginxRow → Entries
nginx_detail_inputs editable site = when editable (
    (codes "system_site_cert_path[]", site.cert_path)
    ∷ (codes "system_site_key_path[]", site.key_path)
    ∷ (codes "system_site_ssl_config_path[]", site.ssl_config_path)
    ∷ (codes "system_site_ssl_dhparam_path[]", site.ssl_dhparam_path)
    ∷ (codes "system_site_index_files[]", site.index_files)
    ∷ (codes "system_site_static_alias_path[]", site.static_alias_path)
    ∷ (codes "system_site_php_enabled[]", site.php_enabled)
    ∷ (codes "system_site_php_socket[]", site.php_socket)
    ∷ (codes "system_site_phpmyadmin_enabled[]", site.phpmyadmin_enabled)
    ∷ (codes "system_site_phpmyadmin_socket[]", site.phpmyadmin_socket)
    ∷ (codes "system_site_proxy_buffering_off[]", site.proxy_buffering_off)
    ∷ (codes "system_site_access_log_off_static[]", site.access_log_off_static)
    ∷ (codes "system_site_static_expires[]", site.static_expires)
    ∷ (codes "system_site_static_cache_control[]", site.static_cache_control)
    ∷ [])

-- A check box of value "1".
abbrev pub checkbox : Text → Bool → Entries
checkbox name checked = when checked ((name, codes "1") ∷ [])

-- The panel "DDoS".
unfoldable pub ddos_inputs : Bool → DdosForm → Entries
ddos_inputs editing d =
    checkbox (codes "ddos_enabled") (editing && d.enabled)
    ++ when editing (
        (codes "ddos_mode", d.mode)
        ∷ (codes "ddos_preset", d.preset)
        ∷ (codes "ddos_rate_limit", d.rate_limit)
        ∷ (codes "ddos_burst", d.burst)
        ∷ (codes "ddos_conn_limit", d.conn_limit)
        ∷ (codes "ddos_syn_rate", d.syn_rate)
        ∷ (codes "ddos_syn_burst", d.syn_burst)
        ∷ (codes "ddos_challenge_delay", d.challenge_delay)
        ∷ (codes "ddos_cookie_ttl", d.cookie_ttl)
        ∷ (codes "ddos_whitelist", d.whitelist)
        ∷ [])

-- The panel "Fail2Ban".
unfoldable pub fail2ban_inputs : Bool → Fail2banForm → Entries
fail2ban_inputs editing f =
    checkbox (codes "fail2ban_enabled") (editing && f.enabled)
    ++ (when editing (
          (codes "fail2ban_max_retry", f.max_retry)
          ∷ (codes "fail2ban_find_time", f.find_time_seconds)
          ∷ (codes "fail2ban_ban_time", f.ban_time_seconds)
          ∷ (codes "fail2ban_status_codes", f.status_codes)
          ∷ (codes "fail2ban_ignore_ips", f.ignore_ips)
          ∷ [])
        ++ (checkbox (codes "fail2ban_use_xff") (editing && f.use_x_forwarded_for)
            ++ checkbox (codes "fail2ban_ban_globally") (editing && f.ban_globally)))

-- The panels of the system server only.
unfoldable pub system_inputs : Bool → ServerConfigForm → Entries
unfolding crlf nginx_row_inputs nginx_detail_inputs flat_map
system_inputs editing form =
    let sites = form.system_nginx_sites ++ form.new_system_nginx_sites in
    flat_map (nginx_row_inputs editing) sites
    ++ (flat_map (nginx_detail_inputs editing) sites
        ++ when editing ((codes "system_nginx_config", crlf form.system_nginx_config) ∷ []))

-- The panels of the other servers only; the address and the profile of the VPN are shown if the page has a
-- profile.
unfoldable pub managed_inputs : (editing has_vpn : Bool) → ServerConfigForm → Entries
unfolding crlf site_inputs error_page_inputs error_file_inputs flat_map
managed_inputs editing has_vpn form =
    when (editing && has_vpn)
      ((codes "vpn_ip", form.vpn_ip) ∷ (codes "vpn_file", crlf form.vpn_file) ∷ [])
    ++ (flat_map (site_inputs editing) (form.sites ++ form.new_sites)
        ++ (flat_map (error_page_inputs editing) (form.error_pages ++ form.new_error_pages)
            ++ flat_map (error_file_inputs editing) form.error_files))

-- The whole form, with the button that submits it.
unfoldable pub form_entries : (is_system editing has_vpn : Bool) → Text → ServerConfigForm → Entries
unfolding system_inputs managed_inputs ddos_inputs fail2ban_inputs
form_entries is_system editing has_vpn active_tab form =
    (codes "action_type", codes "update")
    ∷ (codes "active_tab", active_tab)
    ∷ (when (not is_system && editing) ((codes "top_server_name", form.top_server_name) ∷ [])
        ++ ((if is_system then system_inputs editing form else managed_inputs editing has_vpn form)
            ++ (ddos_inputs editing form.ddos
                ++ (fail2ban_inputs editing form.fail2ban
                    ++ (codes "action_type", codes "update") ∷ []))))
