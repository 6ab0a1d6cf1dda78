-- ===== src/Update/Policies/Kept.antt =====
-- The policies that the handler reads from the submitted form.
use go_resolver.Base.{
  Text, ◌≡◌, refl, ap, Bool, true, false, List, [], ◌∷◌, ◌===◌, codes, if◌then◌else◌,
}
use go_resolver.FormState.Policies.{DdosForm, Fail2banForm}
use go_resolver.FormState.State.{ServerConfigForm}
use go_resolver.Update.Numbers.{trim_space, atoi}
use go_resolver.Update.Submission.{Entries, form_entries}
use go_resolver.Update.Reading.{form_values, first_value}
use go_resolver.Update.Columns.{columns}
use go_resolver.Update.Policies.{
  DdosSettings, complete_ddos, ddos_values, read_ddos, Fail2banSettings, read_fail2ban,
}

-- What the handler makes of the panels.
abbrev pub ddos_settings : DdosForm → DdosSettings
ddos_settings d = record {
  enabled = d.enabled;
  mode = d.mode;
  preset = d.preset;
  rate_limit = atoi d.rate_limit;
  burst = atoi d.burst;
  conn_limit = atoi d.conn_limit;
  syn_rate = atoi d.syn_rate;
  syn_burst = atoi d.syn_burst;
  challenge_delay = atoi d.challenge_delay;
  cookie_ttl = atoi d.cookie_ttl;
  whitelist = trim_space d.whitelist;
}

abbrev pub fail2ban_settings : Fail2banForm → Fail2banSettings
fail2ban_settings f = record {
  enabled = f.enabled;
  max_retry = atoi f.max_retry;
  find_time_seconds = atoi f.find_time_seconds;
  ban_time_seconds = atoi f.ban_time_seconds;
  status_codes = trim_space f.status_codes;
  ignore_ips = trim_space f.ignore_ips;
  use_x_forwarded_for = f.use_x_forwarded_for;
  ban_globally = f.ban_globally;
}

-- The value of a check box.
abbrev checked : Bool → List Text
checked test = if test then codes "1" ∷ [] else []

-- What the entries say of the policies.
record HoldsPolicies (e : Entries) (d : DdosForm) (f : Fail2banForm) : Type 0 where
  ddos_enabled : form_values (codes "ddos_enabled") e ≡ checked d.enabled
  ddos_mode : form_values (codes "ddos_mode") e ≡ d.mode ∷ []
  ddos_preset : form_values (codes "ddos_preset") e ≡ d.preset ∷ []
  ddos_rate_limit : form_values (codes "ddos_rate_limit") e ≡ d.rate_limit ∷ []
  ddos_burst : form_values (codes "ddos_burst") e ≡ d.burst ∷ []
  ddos_conn_limit : form_values (codes "ddos_conn_limit") e ≡ d.conn_limit ∷ []
  ddos_syn_rate : form_values (codes "ddos_syn_rate") e ≡ d.syn_rate ∷ []
  ddos_syn_burst : form_values (codes "ddos_syn_burst") e ≡ d.syn_burst ∷ []
  ddos_challenge_delay : form_values (codes "ddos_challenge_delay") e ≡ d.challenge_delay ∷ []
  ddos_cookie_ttl : form_values (codes "ddos_cookie_ttl") e ≡ d.cookie_ttl ∷ []
  ddos_whitelist : form_values (codes "ddos_whitelist") e ≡ d.whitelist ∷ []
  fail2ban_enabled : form_values (codes "fail2ban_enabled") e ≡ checked f.enabled
  fail2ban_max_retry : form_values (codes "fail2ban_max_retry") e ≡ f.max_retry ∷ []
  fail2ban_find_time : form_values (codes "fail2ban_find_time") e ≡ f.find_time_seconds ∷ []
  fail2ban_ban_time : form_values (codes "fail2ban_ban_time") e ≡ f.ban_time_seconds ∷ []
  fail2ban_status_codes : form_values (codes "fail2ban_status_codes") e ≡ f.status_codes ∷ []
  fail2ban_ignore_ips : form_values (codes "fail2ban_ignore_ips") e ≡ f.ignore_ips ∷ []
  fail2ban_use_xff : form_values (codes "fail2ban_use_xff") e ≡ checked f.use_x_forwarded_for
  fail2ban_ban_globally : form_values (codes "fail2ban_ban_globally") e ≡ checked f.ban_globally

managed-HoldsPolicies :
    (vpn : Bool) (tab : Text) (form : ServerConfigForm)
    → HoldsPolicies (form_entries false true vpn tab form) form.ddos form.fail2ban
unfolding form_entries ◌===◌ form_values
managed-HoldsPolicies true tab form = record {
  ddos_enabled = simp columns;
  ddos_mode = simp columns;
  ddos_preset = simp columns;
  ddos_rate_limit = simp columns;
  ddos_burst = simp columns;
  ddos_conn_limit = simp columns;
  ddos_syn_rate = simp columns;
  ddos_syn_burst = simp columns;
  ddos_challenge_delay = simp columns;
  ddos_cookie_ttl = simp columns;
  ddos_whitelist = simp columns;
  fail2ban_enabled = simp columns;
  fail2ban_max_retry = simp columns;
  fail2ban_find_time = simp columns;
  fail2ban_ban_time = simp columns;
  fail2ban_status_codes = simp columns;
  fail2ban_ignore_ips = simp columns;
  fail2ban_use_xff = simp columns;
  fail2ban_ban_globally = simp columns;
}
managed-HoldsPolicies false tab form = record {
  ddos_enabled = simp columns;
  ddos_mode = simp columns;
  ddos_preset = simp columns;
  ddos_rate_limit = simp columns;
  ddos_burst = simp columns;
  ddos_conn_limit = simp columns;
  ddos_syn_rate = simp columns;
  ddos_syn_burst = simp columns;
  ddos_challenge_delay = simp columns;
  ddos_cookie_ttl = simp columns;
  ddos_whitelist = simp columns;
  fail2ban_enabled = simp columns;
  fail2ban_max_retry = simp columns;
  fail2ban_find_time = simp columns;
  fail2ban_ban_time = simp columns;
  fail2ban_status_codes = simp columns;
  fail2ban_ignore_ips = simp columns;
  fail2ban_use_xff = simp columns;
  fail2ban_ban_globally = simp columns;
}

system-HoldsPolicies :
    (vpn : Bool) (tab : Text) (form : ServerConfigForm)
    → HoldsPolicies (form_entries true true vpn tab form) form.ddos form.fail2ban
unfolding form_entries ◌===◌ form_values
system-HoldsPolicies vpn tab form = record {
  ddos_enabled = simp columns;
  ddos_mode = simp columns;
  ddos_preset = simp columns;
  ddos_rate_limit = simp columns;
  ddos_burst = simp columns;
  ddos_conn_limit = simp columns;
  ddos_syn_rate = simp columns;
  ddos_syn_burst = simp columns;
  ddos_challenge_delay = simp columns;
  ddos_cookie_ttl = simp columns;
  ddos_whitelist = simp columns;
  fail2ban_enabled = simp columns;
  fail2ban_max_retry = simp columns;
  fail2ban_find_time = simp columns;
  fail2ban_ban_time = simp columns;
  fail2ban_status_codes = simp columns;
  fail2ban_ignore_ips = simp columns;
  fail2ban_use_xff = simp columns;
  fail2ban_ban_globally = simp columns;
}

form_entries-HoldsPolicies :
    (sys vpn : Bool) (tab : Text) (form : ServerConfigForm)
    → HoldsPolicies (form_entries sys true vpn tab form) form.ddos form.fail2ban
form_entries-HoldsPolicies false = managed-HoldsPolicies
form_entries-HoldsPolicies true = system-HoldsPolicies

checked_lem : (b : Bool) → (first_value (checked b) === codes "1") ≡ b
unfolding ◌===◌
checked_lem true = refl
checked_lem false = refl

module _ (sys vpn : Bool) (tab : Text) (form : ServerConfigForm) where
  ddos_values-form_entries :
      ddos_values (form_entries sys true vpn tab form) ≡ ddos_settings form.ddos
  unfolding ddos_values
  ddos_values-form_entries =
      let h = form_entries-HoldsPolicies sys vpn tab form in
      simp (
        h.ddos_enabled, h.ddos_mode, h.ddos_preset, h.ddos_rate_limit, h.ddos_burst,
        h.ddos_conn_limit, h.ddos_syn_rate, h.ddos_syn_burst, h.ddos_challenge_delay,
        h.ddos_cookie_ttl, h.ddos_whitelist, checked_lem,
      )

  -- From a form that is submitted while it is edited the handler reads the panel of the DDoS policy,
  -- with the limits of its preset and the defaults.
  pub read_ddos-form_entries :
      read_ddos (form_entries sys true vpn tab form) ≡ complete_ddos (ddos_settings form.ddos)
  unfolding read_ddos
  read_ddos-form_entries = ap complete_ddos ddos_values-form_entries

  -- And the panel of the Fail2Ban policy.
  pub read_fail2ban-form_entries :
      read_fail2ban (form_entries sys true vpn tab form) ≡ fail2ban_settings form.fail2ban
  unfolding read_fail2ban
  read_fail2ban-form_entries =
      let h = form_entries-HoldsPolicies sys vpn tab form in
      simp (
        h.fail2ban_enabled, h.fail2ban_max_retry, h.fail2ban_find_time, h.fail2ban_ban_time,
        h.fail2ban_status_codes, h.fail2ban_ignore_ips, h.fail2ban_use_xff, h.fail2ban_ban_globally,
        checked_lem,
      )
