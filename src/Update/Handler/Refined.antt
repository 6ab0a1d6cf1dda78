-- ===== src/Update/Handler/Refined.antt =====
-- The handler applied to the form that the page submits does what the page shows: the calls, in their
-- order, with the row or the setting that each is given.
use go_resolver.Base.{Text, ◌≡◌, refl, ◌∙◌, Bool, true, some, List, [], ◌∷◌, ◌++◌}
use go_resolver.FormState.State.{ServerConfigForm}
use go_resolver.Update.Submission.{form_entries, crlf}
use go_resolver.Update.NginxSites.Rows.{load_system_nginx_sites-form_entries}
use go_resolver.Update.Policies.{complete_ddos}
use go_resolver.Update.Policies.Kept.{
  ddos_settings, fail2ban_settings, read_ddos-form_entries, read_fail2ban-form_entries,
}
use go_resolver.Update.Service.{Service}
use go_resolver.Update.Handler.{
  is_system_server_id, see_other, apply_fail2ban, update_system, update,
}
use go_resolver.Update.Handler.Steps.{carry_out, one-Does, stages-Does, Stage, as_stage, concat}
use go_resolver.Update.Handler.Shown.{
  tab_of, import_of, config_of, failed_fail2ban, failed_nginx, ddos_steps, fail2ban_steps,
  apply_fail2ban-Does,
}
use go_resolver.Update.Handler.Stages.{
  update_system-carry_out, deploys_system, ddos_stage, kept, keep_sites-kept,
}

module _ {S : Type 0} (svc : Service S) (server_id tab : Text) (form : ServerConfigForm) where
  update-update_system :
      is_system_server_id server_id ≡ true
      → (vpn : Bool) (s : S)
      → update svc server_id (some (form_entries true true vpn tab form)) s
        ≡ update_system svc server_id []
            (crlf form.system_nginx_config)
            (kept (form.system_nginx_sites ++ form.new_system_nginx_sites))
            (complete_ddos (ddos_settings form.ddos))
            (fail2ban_settings form.fail2ban)
            tab
            s
  unfolding update
  update-update_system system vpn s =
      rw
        (
          system,
          import_of tab form vpn,
          config_of tab form vpn,
          load_system_nginx_sites-form_entries vpn tab form,
          keep_sites-kept (form.system_nginx_sites ++ form.new_system_nginx_sites),
          read_ddos-form_entries true vpn tab form,
          read_fail2ban-form_entries true vpn tab form,
          tab_of tab form true vpn,
        )
        refl

  -- For the system server it makes these calls and no other, in this order, up to the first that fails,
  -- whose error is the response: those that save and apply the DDoS policy and deploy the server; the one
  -- that saves the sites that are shown, but for those without a name, a target and a root, with the raw
  -- configuration; and those of the Fail2Ban policy. A run without an error ends with the redirect to
  -- the tab, and nothing is imported.
  pub update-system :
      is_system_server_id server_id ≡ true
      → (vpn : Bool) (s : S)
      → update svc server_id (some (form_entries true true vpn tab form)) s
        ≡ carry_out
            (concat (
              ddos_steps svc server_id
                (complete_ddos (ddos_settings form.ddos))
                svc.deploy_system_nginx
              ∷ ((
                failed_nginx,
                svc.save_system_nginx
                    (crlf form.system_nginx_config)
                    (kept (form.system_nginx_sites ++ form.new_system_nginx_sites)),
              )
                  ∷ [])
              ∷ fail2ban_steps svc server_id (fail2ban_settings form.fail2ban)
              ∷ []))
            (λ t. (t, see_other server_id tab))
            s
  update-system system vpn s =
      let ddos = complete_ddos (ddos_settings form.ddos) in
      let fail2ban = fail2ban_settings form.fail2ban in
      let save =
        svc.save_system_nginx (crlf form.system_nginx_config)
          (kept (form.system_nginx_sites ++ form.new_system_nginx_sites)) in
      let stages : List (Stage S) =
        ddos_stage svc server_id tab ddos svc.deploy_system_nginx
          (deploys_system svc server_id tab system)
        ∷ as_stage failed_nginx (save) ((failed_nginx, save) ∷ []) (one-Does failed_nginx save)
        ∷ as_stage failed_fail2ban (apply_fail2ban svc server_id fail2ban)
            (fail2ban_steps svc server_id fail2ban) (apply_fail2ban-Does svc server_id fail2ban)
        ∷ [] in
      update-update_system system vpn s
      ∙ update_system-carry_out svc server_id tab _ _ ddos fail2ban s
      ∙ stages-Does stages (λ t. (t, see_other server_id tab)) s
