-- ===== src/Update/Handler/Shown.antt =====
-- What the page shows, as the calls that it means: a step for each row, and for each setting; and that
-- the parts of the handler make these calls.
use go_resolver.Base.{
  Text, ◌≡◌, refl, sym, Bool, true, false, ◌&&◌, ◌||◌, none, List, [], ◌∷◌, ◌++◌, codes, ◌===◌,
  if◌then◌else◌,
}
use go_resolver.FormState.State.{ServerConfigForm}
use go_resolver.FormState.Sites.{SiteRow, ErrorPageRow, ErrorFileRow}
use go_resolver.Base.Trim.{trim_by}
use go_resolver.Update.Numbers.{trim_space, is_go_space, atoi_or_zero}
use go_resolver.Update.Submission.{form_entries, crlf}
use go_resolver.Update.Reading.{form_values, form_value}
use go_resolver.Update.Columns.{columns}
use go_resolver.Update.Sites.{read_site}
use go_resolver.Update.ErrorPages.Rows.{read_page, read_file}
use go_resolver.Update.Policies.{DdosSettings, Fail2banSettings}
use go_resolver.Update.Service.{Call, Service, SiteUpdate}
use go_resolver.Update.Handler.{
  Reply, http_error, Header, read_header, save_site_row, save_page_row, save_file_row,
  deploy_changes, apply_ddos, apply_fail2ban, assign_static_vpn_ip,
}
use go_resolver.Update.Handler.Steps.{Step, Does, skip-Does, one-Does, if-Does, then-Does}

-- What the page shows besides the rows; without a VPN profile it shows neither the address nor the
-- profile.
abbrev pub header_of : (vpn : Bool) → ServerConfigForm → Header
header_of vpn form = record {
  top_server_name = form.top_server_name;
  vpn_ip = if vpn then trim_space form.vpn_ip else [];
  vpn_file = if vpn then crlf form.vpn_file else [];
}

module _ (tab : Text) (form : ServerConfigForm) where
  pub tab_of :
      (sys vpn : Bool) → form_value (codes "active_tab") (form_entries sys true vpn tab form) ≡ tab
  unfolding form_entries ◌===◌ form_values
  tab_of sys vpn = refl

  name_of :
      (vpn : Bool)
      → form_values (codes "top_server_name") (form_entries false true vpn tab form)
        ≡ form.top_server_name ∷ []
  unfolding form_entries ◌===◌ form_values
  name_of true = simp columns
  name_of false = simp columns

  ip_of :
      (vpn : Bool)
      → form_values (codes "vpn_ip") (form_entries false true vpn tab form)
        ≡ (if vpn then form.vpn_ip ∷ [] else [])
  unfolding form_entries ◌===◌ form_values
  ip_of true = simp columns
  ip_of false = simp columns

  file_of :
      (vpn : Bool)
      → form_values (codes "vpn_file") (form_entries false true vpn tab form)
        ≡ (if vpn then crlf form.vpn_file ∷ [] else [])
  unfolding form_entries ◌===◌ form_values
  file_of true = simp columns
  file_of false = simp columns

  pub read_header-form_entries :
      (vpn : Bool) → read_header (form_entries false true vpn tab form) ≡ header_of vpn form
  unfolding read_header trim_space trim_by is_go_space
  read_header-form_entries true = simp (name_of, ip_of, file_of)
  read_header-form_entries false = simp (name_of, ip_of, file_of)

  pub import_of :
      (vpn : Bool)
      → form_values (codes "system_nginx_import") (form_entries true true vpn tab form) ≡ []
  unfolding form_entries ◌===◌ form_values
  import_of vpn = simp columns

  pub config_of :
      (vpn : Bool)
      → form_values (codes "system_nginx_config") (form_entries true true vpn tab form)
        ≡ crlf form.system_nginx_config ∷ []
  unfolding form_entries ◌===◌ form_values
  config_of vpn = simp columns

-- The responses to the errors.
abbrev pub failed_update : Text → Reply
failed_update e = http_error 500 (codes "Update failed")

abbrev pub failed_ddos : Text → Reply
failed_ddos e = http_error 500 (codes "Failed to apply DDoS policy: " ++ e)

abbrev pub failed_fail2ban : Text → Reply
failed_fail2ban e = http_error 500 (codes "Failed to apply Fail2Ban policy: " ++ e)

abbrev pub failed_nginx : Text → Reply
failed_nginx e = http_error 500 (codes "Failed to save system nginx config: " ++ e)

abbrev pub failed_address : Text → Reply
failed_address e = http_error 500 (codes "Update VPN IP failed")

module _ {S : Type 0} (svc : Service S) (server_id : Text) where
  -- A row of a site: a blank one is passed over, one without an id is new, and another is changed.
  abbrev pub site_steps : (vpn : Bool) → ServerConfigForm → SiteRow → List (Step S)
  site_steps vpn form site =
      let target : SiteUpdate = record {
        id = atoi_or_zero site.id;
        name = form.top_server_name;
        ip = if vpn then trim_space form.vpn_ip else [];
        vpn_file = if vpn then crlf form.vpn_file else [];
      } in
      if (site.id === []) && (trim_space site.server_name === [])
      then []
      else if site.id === []
      then (failed_update, svc.insert_site server_id (read_site site)) ∷ []
      else (failed_update, svc.update_site server_id target (read_site site)) ∷ []

  -- An error page: without a file it is passed over.
  abbrev pub page_steps : ErrorPageRow → List (Step S)
  page_steps page =
      if page.error_page_id === []
      then []
      else if page.id === []
      then (failed_update, svc.insert_error_page server_id (read_page page)) ∷ []
      else (failed_update, svc.save_error_page server_id (read_page page)) ∷ []

  -- An error file: it is passed over unless its id, code and type are there.
  abbrev pub file_steps : ErrorFileRow → List (Step S)
  file_steps f =
      if (f.id === []) || (trim_space f.error_code === []) || (trim_space f.response_type === [])
      then []
      else (failed_update, svc.update_error_file (read_file f)) ∷ []

  abbrev pub ddos_steps : DdosSettings → Call S → List (Step S)
  ddos_steps policy deploy =
      (failed_ddos, svc.save_ddos_policy server_id policy)
      ∷ (failed_ddos, svc.apply_ddos_iptables server_id policy)
      ∷ (failed_ddos, deploy)
      ∷ []

  abbrev pub fail2ban_steps : Fail2banSettings → List (Step S)
  fail2ban_steps policy =
      (failed_fail2ban, svc.save_fail2ban_policy server_id policy)
      ∷ (if policy.enabled then (failed_fail2ban, λ s. (svc.enforce_fail2ban s, none)) ∷ [] else [])

  abbrev pub address_steps : Text → List (Step S)
  address_steps ip =
      if ip === []
      then []
      else (failed_address, svc.assign_vpn_ip (codes "client-" ++ server_id) ip) ∷ []

  pub save_site_row-Does :
      (vpn : Bool) (form : ServerConfigForm) (site : SiteRow)
      → Does failed_update
          (save_site_row svc server_id (header_of vpn form) (read_site site))
          (site_steps vpn form site)
  unfolding save_site_row
  save_site_row-Does vpn form site =
      if-Does failed_update ((site.id === []) && (trim_space site.server_name === [])) _ _ _ _
        (skip-Does failed_update)
        (if-Does failed_update (site.id === []) _ _ _ _ (one-Does failed_update _)
          (one-Does failed_update _))

  pub save_page_row-Does :
      (page : ErrorPageRow)
      → Does failed_update (save_page_row svc server_id (read_page page)) (page_steps page)
  unfolding save_page_row
  save_page_row-Does page =
      if-Does failed_update (page.error_page_id === []) _ _ _ _ (skip-Does failed_update) (
        if-Does failed_update (page.id === []) _ _ _ _ (one-Does failed_update _)
          (one-Does failed_update _))

  pub save_file_row-Does :
      (f : ErrorFileRow)
      → Does failed_update (save_file_row svc server_id (read_file f)) (file_steps f)
  unfolding save_file_row
  save_file_row-Does f =
      if-Does failed_update
        ((f.id === []) || (trim_space f.error_code === []) || (trim_space f.response_type === [])) _
        _ _ _ (skip-Does failed_update) (one-Does failed_update _)

  pub apply_ddos-Does :
      (policy : DdosSettings) (deploy : Call S)
      → deploy_changes svc server_id ≡ deploy
      → Does failed_ddos (apply_ddos svc server_id policy) (ddos_steps policy deploy)
  unfolding apply_ddos
  apply_ddos-Does policy deploy same = rw (sym same) (
      then-Does failed_ddos _ _ _ _
        (then-Does failed_ddos _ _ _ _ (one-Does failed_ddos _) (one-Does failed_ddos _))
        (one-Does failed_ddos _))

  pub apply_fail2ban-Does :
      (policy : Fail2banSettings)
      → Does failed_fail2ban (apply_fail2ban svc server_id policy) (fail2ban_steps policy)
  unfolding apply_fail2ban
  apply_fail2ban-Does policy = then-Does failed_fail2ban _ _ _ _ (one-Does failed_fail2ban _) (
      if-Does failed_fail2ban policy.enabled _ _ _ _ (one-Does failed_fail2ban _)
        (skip-Does failed_fail2ban))

  pub assign_static_vpn_ip-Does :
      (ip : Text) → Does failed_address (assign_static_vpn_ip svc server_id ip) (address_steps ip)
  unfolding assign_static_vpn_ip
  assign_static_vpn_ip-Does ip =
      if-Does failed_address (ip === []) _ _ _ _ (skip-Does failed_address)
        (one-Does failed_address _)
