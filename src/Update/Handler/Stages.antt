-- ===== src/Update/Handler/Stages.antt =====
-- The stages of the handler as a list of calls, and the sites of the system server that are kept.
use go_resolver.Base.{
  Text, ◌≡◌, refl, arith, true, false, ◌&&◌, none, List, [], ◌∷◌, map, flat_map, ◌===◌,
  if◌then◌else◌,
}
use go_resolver.FormState.Nginx.{NginxRow}
use go_resolver.Base.Trim.{trim_by}
use go_resolver.Update.Numbers.{trim_space, is_go_space}
use go_resolver.Update.Reading.{ConfigurationRow}
use go_resolver.Update.ErrorPages.{PageRow, FileRow}
use go_resolver.Update.NginxSites.{NginxSite, keep_sites}
use go_resolver.Update.NginxSites.Rows.{read_nginx_site}
use go_resolver.Update.Policies.{DdosSettings, Fail2banSettings}
use go_resolver.Update.Service.{Call, Service, each}
use go_resolver.Update.Handler.{
  is_system_server_id, see_other, Header, save_site_row, save_page_row, save_file_row, deploy_sites,
  deploy_changes, apply_ddos, apply_fail2ban, assign_static_vpn_ip, update_managed, update_system,
  update_system_with,
}
use go_resolver.Update.Handler.Steps.{carry_out, Stage, as_stage}
use go_resolver.Update.Handler.Shown.{
  failed_update, failed_ddos, failed_fail2ban, failed_nginx, failed_address, ddos_steps,
  apply_ddos-Does,
}

module _ {S : Type 0} (svc : Service S) (server_id tab : Text) where
  pub update_managed-carry_out :
      (sites : List ConfigurationRow) (pages : List PageRow) (files : List FileRow) (h : Header)
      (ddos : DdosSettings) (fail2ban : Fail2banSettings) (s : S)
      → update_managed svc server_id sites pages files h ddos fail2ban tab s
        ≡ carry_out
            ((failed_update, each (save_site_row svc server_id h) sites)
              ∷ (failed_update, each (save_page_row svc server_id) pages)
              ∷ (failed_update, each (save_file_row svc server_id) files)
              ∷ (failed_ddos, apply_ddos svc server_id ddos)
              ∷ (failed_fail2ban, apply_fail2ban svc server_id fail2ban)
              ∷ (failed_address, assign_static_vpn_ip svc server_id h.vpn_ip)
              ∷ [])
            (λ t. (t, see_other server_id tab))
            s
  unfolding update_managed carry_out
  update_managed-carry_out sites pages files h ddos fail2ban s = refl

  pub update_system-carry_out :
      (config : Text) (sites : List NginxSite) (ddos : DdosSettings) (fail2ban : Fail2banSettings)
      (s : S)
      → update_system svc server_id [] config sites ddos fail2ban tab s
        ≡ carry_out
            ((failed_ddos, apply_ddos svc server_id ddos)
              ∷ (failed_nginx, svc.save_system_nginx config sites)
              ∷ (failed_fail2ban, apply_fail2ban svc server_id fail2ban)
              ∷ [])
            (λ t. (t, see_other server_id tab))
            s
  unfolding update_system update_system_with carry_out trim_space trim_by is_go_space ◌===◌
  update_system-carry_out config sites ddos fail2ban s = refl

  pub deploys_managed :
      is_system_server_id server_id ≡ false
      → deploy_changes svc server_id
        ≡ (λ s. (deploy_sites svc server_id [] (svc.site_names server_id s) s, none))
  unfolding deploy_changes
  deploys_managed managed = rw managed refl

  pub deploys_system :
      is_system_server_id server_id ≡ true → deploy_changes svc server_id ≡ svc.deploy_system_nginx
  unfolding deploy_changes
  deploys_system system = rw system refl

  abbrev pub ddos_stage :
      (policy : DdosSettings) (deploy : Call S) → deploy_changes svc server_id ≡ deploy → Stage S
  ddos_stage policy deploy same =
      as_stage failed_ddos (apply_ddos svc server_id policy)
        (ddos_steps svc server_id policy deploy) (apply_ddos-Does svc server_id policy deploy same)

-- The sites that are shown on the system server, but for those without a name, a target and a root.
abbrev pub kept : List NginxRow → List NginxSite
kept = flat_map (λ site.
    if (trim_space site.server_name === [])
      && (trim_space site.proxy_pass_url === [])
      && (trim_space site.root_path === [])
    then []
    else read_nginx_site site ∷ [])

pub keep_sites-kept : (rows : List NginxRow) → keep_sites (map read_nginx_site rows) ≡ kept rows
unfolding keep_sites flat_map
keep_sites-kept [] = refl
keep_sites-kept (row ∷ rows) = ground (arith, keep_sites-kept rows)
