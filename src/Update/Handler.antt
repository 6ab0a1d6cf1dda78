-- ===== src/Update/Handler.antt =====
-- The handler `Update` of internal/handlers/serverconfiguration_update.go, with `applyDDoSFromForm` and
-- `applyFail2BanFromForm` of internal/handlers/serverconfiguration_handler.go and `IsSystemServerID` of
-- internal/services/system_server.go. The messages of the log are left out.
pub mod Refined
pub mod Steps
pub mod Shown
pub mod Stages
use go_resolver.Base.{
  Text, ℕ, Bool, false, not, ◌||◌, Option, none, some, List, [], ◌∷◌, ◌++◌, codes, ◌===◌,
  if◌then◌else◌,
}
use go_resolver.Update.Numbers.{trim_space, atoi_or_zero}
use go_resolver.Update.Submission.{Entries}
use go_resolver.Update.Reading.{form_values, form_value, ConfigurationRow, is_empty_row}
use go_resolver.Update.Sites.{configuration_rows}
use go_resolver.Update.ErrorPages.{PageRow, FileRow, page_rows, file_rows}
use go_resolver.Update.NginxSites.{NginxSite, load_system_nginx_sites}
use go_resolver.Update.Policies.{DdosSettings, read_ddos, Fail2banSettings, read_fail2ban}
use go_resolver.Update.Service.{
  Call, SiteUpdate, Imported, sites_and_rest, rejected, Service, ◌>>◌, skip, each,
}

unfoldable pub is_system_server_id : Text → Bool
is_system_server_id id = trim_space id === codes "0"

-- The response: an error with its status, or a redirect to the page of the server at a tab. The time in
-- the address is left out.
pub data Reply : Type 0 where
  http_error : ℕ → Text → Reply
  see_other : Text → Text → Reply

-- What an update takes from the form besides its rows.
pub record Header : Type 0 where
  pub top_server_name : Text
  pub vpn_ip : Text
  pub vpn_file : Text

unfoldable pub read_header : Entries → Header
read_header form = record {
  top_server_name = form_value (codes "top_server_name") form;
  vpn_ip = trim_space (form_value (codes "vpn_ip") form);
  vpn_file = form_value (codes "vpn_file") form;
}

module _ {S : Type 0} (svc : Service S) (server_id : Text) where
  -- The body of the loop of `saveServerConfigurationRows`.
  unfoldable pub save_site_row : Header → ConfigurationRow → Call S
  save_site_row h row =
      if is_empty_row row
      then skip
      else if row.id === []
      then svc.insert_site server_id row
      else svc.update_site server_id
          (record {
            id = atoi_or_zero row.id;
            name = h.top_server_name;
            ip = h.vpn_ip;
            vpn_file = h.vpn_file;
          })
          row

  -- The body of the loop of `saveServerErrorPages`.
  unfoldable pub save_page_row : PageRow → Call S
  save_page_row row =
      if row.error_file_id === []
      then skip
      else if row.id === []
      then svc.insert_error_page server_id row
      else svc.save_error_page server_id row

  -- The body of the loop of `saveServerErrorFiles`.
  unfoldable pub save_file_row : FileRow → Call S
  save_file_row row =
      if (row.id === []) || (row.error_code === []) || (row.response_type === [])
      then skip
      else svc.update_error_file row

  has_seen : Text → List Text → Bool
  has_seen name [] = false
  has_seen name (other ∷ seen) = (other === name) || has_seen name seen

  -- The names that are deployed, each one once; an error of a deployment is only logged.
  unfoldable pub deploy_sites : List Text → List Text → S → S
  unfolding has_seen
  deploy_sites seen [] s = s
  deploy_sites seen (name ∷ names) s =
      let skipped = deploy_sites seen names s in
      let deployed = deploy_sites (name ∷ seen) names (svc.deploy_nginx name s).0 in
      if (name === []) || has_seen name seen then skipped else deployed

  unfoldable pub deploy_changes : Call S
  unfolding is_system_server_id deploy_sites
  deploy_changes = if is_system_server_id server_id then svc.deploy_system_nginx else λ s.
      (deploy_sites [] (svc.site_names server_id s) s, none)

  -- `applyDDoSFromForm`, behind the reading of the form.
  unfoldable pub apply_ddos : DdosSettings → Call S
  unfolding deploy_changes
  apply_ddos policy =
      svc.save_ddos_policy server_id policy
      >> svc.apply_ddos_iptables server_id policy
      >> deploy_changes

  -- `applyFail2BanFromForm`, behind the reading of the form.
  unfoldable pub apply_fail2ban : Fail2banSettings → Call S
  apply_fail2ban policy =
      svc.save_fail2ban_policy server_id policy
      >> (if policy.enabled then (λ s. (svc.enforce_fail2ban s, none)) else skip)

  -- `assignStaticVPNIP`
  unfoldable pub assign_static_vpn_ip : Text → Call S
  assign_static_vpn_ip vpn_ip =
      if vpn_ip === [] then skip else svc.assign_vpn_ip (codes "client-" ++ server_id) vpn_ip

  -- A stage of the handler: what follows it, unless it fails with this response.
  abbrev stage : (Text → Reply) → Call S → (S → S × Reply) → S → S × Reply
  stage reply m rest s =
      let (t, failed) = m s in elim failed [ none ↦ rest t | some e ↦ (t, reply e) ]

  abbrev failure : Text → Text → Reply
  failure message _ = http_error 500 message

  abbrev failure_with : Text → Text → Reply
  failure_with message e = http_error 500 (message ++ e)

  -- The stages for a server that is not the system server.
  unfoldable pub update_managed :
      List ConfigurationRow
      → List PageRow
      → List FileRow
      → Header
      → DdosSettings
      → Fail2banSettings
      → Text
      → S
      → S × Reply
  unfolding save_site_row save_page_row save_file_row apply_ddos apply_fail2ban assign_static_vpn_ip
      each
  update_managed sites pages files h ddos fail2ban tab =
      stage (failure (codes "Update failed")) (each (save_site_row h) sites) (
        stage (failure (codes "Update failed")) (each save_page_row pages) (
          stage (failure (codes "Update failed")) (each save_file_row files) (
            stage (failure_with (codes "Failed to apply DDoS policy: ")) (apply_ddos ddos) (
              stage (failure_with (codes "Failed to apply Fail2Ban policy: "))
                (apply_fail2ban fail2ban)
                (stage (failure (codes "Update VPN IP failed")) (assign_static_vpn_ip h.vpn_ip)
                  (λ s. (s, see_other server_id tab)))))))

  -- The stages for the system server, behind the import.
  unfoldable pub update_system_with :
      Text → List NginxSite → Fail2banSettings → Text → S → S × Reply
  unfolding apply_fail2ban
  update_system_with config sites fail2ban tab =
      stage (failure_with (codes "Failed to save system nginx config: "))
        (svc.save_system_nginx config sites)
        (stage (failure_with (codes "Failed to apply Fail2Ban policy: ")) (apply_fail2ban fail2ban)
          (λ s. (s, see_other server_id tab)))

  import_and_update : Text → Text → List NginxSite → Fail2banSettings → Text → S → S × Reply
  unfolding update_system_with
  import_and_update text config sites fail2ban tab =
      if trim_space text === []
      then update_system_with config sites fail2ban tab
      else elim (svc.import_nginx text) [
        | sites_and_rest imported rest ↦ update_system_with rest imported fail2ban tab
        | rejected e ↦
            λ s. (s, http_error 400 (codes "Failed to import system nginx config: " ++ e))
      ]

  -- The stages for the system server.
  unfoldable pub update_system :
      Text → Text → List NginxSite → DdosSettings → Fail2banSettings → Text → S → S × Reply
  unfolding import_and_update apply_ddos
  update_system text config sites ddos fail2ban tab =
      stage (failure_with (codes "Failed to apply DDoS policy: ")) (apply_ddos ddos)
        (import_and_update text config sites fail2ban tab)

  -- `Update`, for a form that has been parsed, or not.
  unfoldable pub update : Option Entries → S → S × Reply
  unfolding is_system_server_id read_header
  update none s = (s, http_error 400 (codes "Invalid form"))
  update (some form) s =
      if is_system_server_id server_id
      then update_system (form_value (codes "system_nginx_import") form)
          (form_value (codes "system_nginx_config") form) (load_system_nginx_sites form)
          (read_ddos form) (read_fail2ban form) (form_value (codes "active_tab") form) s
      else update_managed (configuration_rows form) (page_rows form) (file_rows form)
          (read_header form) (read_ddos form) (read_fail2ban form)
          (form_value (codes "active_tab") form) s
