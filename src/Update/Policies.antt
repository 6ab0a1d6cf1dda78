-- ===== src/Update/Policies.antt =====
-- The policies that `applyDDoSFromForm` and `applyFail2BanFromForm` of
-- internal/handlers/serverconfiguration_handler.go make of a form.
pub mod Kept
pub mod Unchanged
use go_resolver.Base.{
  Text, ℕ, zero, suc, Bool, true, not, List, [], ◌∷◌, codes, ◌===◌, if◌then◌else◌,
}
use go_resolver.Base.Int.{ℤ, pos, negsuc}
use go_resolver.Update.Numbers.{trim_space, atoi}
use go_resolver.Update.Submission.{Entries}
use go_resolver.Update.Reading.{form_values, form_value}

-- `models.DDoSPolicy`, but for the server that it is of.
pub record DdosSettings : Type 0 where
  pub enabled : Bool
  pub mode : Text
  pub preset : Text
  pub rate_limit : ℤ
  pub burst : ℤ
  pub conn_limit : ℤ
  pub syn_rate : ℤ
  pub syn_burst : ℤ
  pub challenge_delay : ℤ
  pub cookie_ttl : ℤ
  pub whitelist : Text

-- `if n <= 0 { n = fallback }`
unfoldable pub positive_or : ℕ → ℤ → ℤ
positive_or fallback (pos zero) = pos fallback
positive_or fallback (pos (suc n)) = pos (suc n)
positive_or fallback (negsuc n) = pos fallback

abbrev pub limits : ℕ → ℕ → ℕ → DdosSettings → DdosSettings
limits rate burst conn p = record p {
  rate_limit = pos rate;
  burst = pos burst;
  conn_limit = pos conn;
  syn_rate = pos rate;
  syn_burst = pos burst;
}

-- The limits of a preset.
unfoldable pub apply_preset : DdosSettings → DdosSettings
apply_preset p =
    if not (p.preset === codes "custom")
    then if p.preset === codes "low"
      then limits 20 40 100 p
      else if p.preset === codes "high"
      then limits 5 10 25 p
      else record (limits 10 20 50 p) { preset = codes "medium" }
    else p

unfoldable pub complete_ddos : DdosSettings → DdosSettings
unfolding apply_preset positive_or
complete_ddos p =
    let q = apply_preset p in
    record q {
      challenge_delay = positive_or 5 q.challenge_delay;
      cookie_ttl = positive_or 3600 q.cookie_ttl;
    }

-- The values of the form, before presets and defaults.
unfoldable pub ddos_values : Entries → DdosSettings
ddos_values form = record {
  enabled = form_value (codes "ddos_enabled") form === codes "1";
  mode = form_value (codes "ddos_mode") form;
  preset = form_value (codes "ddos_preset") form;
  rate_limit = atoi (form_value (codes "ddos_rate_limit") form);
  burst = atoi (form_value (codes "ddos_burst") form);
  conn_limit = atoi (form_value (codes "ddos_conn_limit") form);
  syn_rate = atoi (form_value (codes "ddos_syn_rate") form);
  syn_burst = atoi (form_value (codes "ddos_syn_burst") form);
  challenge_delay = atoi (form_value (codes "ddos_challenge_delay") form);
  cookie_ttl = atoi (form_value (codes "ddos_cookie_ttl") form);
  whitelist = trim_space (form_value (codes "ddos_whitelist") form);
}

unfoldable pub read_ddos : Entries → DdosSettings
unfolding complete_ddos ddos_values
read_ddos form = complete_ddos (ddos_values form)

-- `models.Fail2BanPolicy`, but for the server that it is of.
pub record Fail2banSettings : Type 0 where
  pub enabled : Bool
  pub max_retry : ℤ
  pub find_time_seconds : ℤ
  pub ban_time_seconds : ℤ
  pub status_codes : Text
  pub ignore_ips : Text
  pub use_x_forwarded_for : Bool
  pub ban_globally : Bool

unfoldable pub read_fail2ban : Entries → Fail2banSettings
read_fail2ban form = record {
  enabled = form_value (codes "fail2ban_enabled") form === codes "1";
  max_retry = atoi (form_value (codes "fail2ban_max_retry") form);
  find_time_seconds = atoi (form_value (codes "fail2ban_find_time") form);
  ban_time_seconds = atoi (form_value (codes "fail2ban_ban_time") form);
  status_codes = trim_space (form_value (codes "fail2ban_status_codes") form);
  ignore_ips = trim_space (form_value (codes "fail2ban_ignore_ips") form);
  use_x_forwarded_for = form_value (codes "fail2ban_use_xff") form === codes "1";
  ban_globally = form_value (codes "fail2ban_ban_globally") form === codes "1";
}
