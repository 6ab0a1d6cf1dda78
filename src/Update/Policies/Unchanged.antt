-- ===== src/Update/Policies/Unchanged.antt =====
-- A policy that is shown and submitted again without a change.
use go_resolver.Base.{
  Text, ℕ, ◌<◌, ◌≡◌, ◌≢◌, refl, ap, ◌∙◌, Bool, true, some, [], ◌∷◌, codes, or_text,
}
use go_resolver.Base.Int.{pos, int64_limit}
use go_resolver.FormState.Sites.{number_text}
use go_resolver.FormState.Policies.{DdosPolicy, map_ddos}
use go_resolver.FormState.State.{ServerConfigurationPage, build_server_config_form_state}
use go_resolver.Update.Numbers.{trim_space}
use go_resolver.Update.Numbers.Bounds.{atoi-decimal}
use go_resolver.Update.Submission.{form_entries}
use go_resolver.Update.Policies.{DdosSettings, complete_ddos, read_ddos}
use go_resolver.Update.Policies.Kept.{ddos_settings, read_ddos-form_entries}

-- A policy as the server keeps it, with natural numbers.
pub record StoredPolicy : Type 0 where
  pub enabled : Bool
  pub mode : Text
  pub preset : Text
  pub rate_limit : ℕ
  pub burst : ℕ
  pub conn_limit : ℕ
  pub syn_rate : ℕ
  pub syn_burst : ℕ
  pub challenge_delay : ℕ
  pub cookie_ttl : ℕ
  pub whitelist : Text

abbrev pub settings_of : StoredPolicy → DdosSettings
settings_of p = record {
  enabled = p.enabled;
  mode = p.mode;
  preset = p.preset;
  rate_limit = pos p.rate_limit;
  burst = pos p.burst;
  conn_limit = pos p.conn_limit;
  syn_rate = pos p.syn_rate;
  syn_burst = pos p.syn_burst;
  challenge_delay = pos p.challenge_delay;
  cookie_ttl = pos p.cookie_ttl;
  whitelist = p.whitelist;
}

-- As the page gets it.
abbrev pub policy_of : StoredPolicy → DdosPolicy
policy_of p = record {
  enabled = p.enabled;
  mode = some p.mode;
  preset = some p.preset;
  rate_limit = some p.rate_limit;
  burst = some p.burst;
  conn_limit = some p.conn_limit;
  syn_rate = some p.syn_rate;
  syn_burst = some p.syn_burst;
  challenge_delay = some p.challenge_delay;
  cookie_ttl = some p.cookie_ttl;
  whitelist = some p.whitelist;
}

-- A policy that the handler itself makes: its limits are those of its preset, its numbers are in range,
-- and its whitelist is trimmed. Its mode is one of the form's.
pub record IsStored (p : StoredPolicy) : Type 0 where
  pub complete : complete_ddos (settings_of p) ≡ settings_of p
  pub mode : p.mode ≢ []
  pub preset : p.preset ≢ []
  pub trimmed : trim_space p.whitelist ≡ p.whitelist
  pub rate_limit : p.rate_limit < int64_limit
  pub burst : p.burst < int64_limit
  pub conn_limit : p.conn_limit < int64_limit
  pub syn_rate : p.syn_rate < int64_limit
  pub syn_burst : p.syn_burst < int64_limit
  pub challenge_delay : p.challenge_delay < int64_limit
  pub cookie_ttl : p.cookie_ttl < int64_limit

or_text-full : (t fallback : Text) → t ≢ [] → or_text t fallback ≡ t
or_text-full [] fallback h = absurd (h refl)
or_text-full (c ∷ t) fallback h = refl

module _ (p : StoredPolicy) (h : IsStored p) where
  shown : ddos_settings (map_ddos (policy_of p)) ≡ settings_of p
  unfolding map_ddos number_text
  shown = simp (
    or_text-full p.mode (codes "off") h.mode,
    or_text-full p.preset (codes "medium") h.preset,
    h.trimmed,
    atoi-decimal p.rate_limit h.rate_limit,
    atoi-decimal p.burst h.burst,
    atoi-decimal p.conn_limit h.conn_limit,
    atoi-decimal p.syn_rate h.syn_rate,
    atoi-decimal p.syn_burst h.syn_burst,
    atoi-decimal p.challenge_delay h.challenge_delay,
    atoi-decimal p.cookie_ttl h.cookie_ttl,
  )

  -- Saving the form of a page without a change keeps the DDoS policy that the server has made.
  pub read_ddos-unchanged :
      (sys vpn : Bool) (tab : Text) (page : ServerConfigurationPage)
      → page.ddos_policy ≡ some (policy_of p)
      → read_ddos (form_entries sys true vpn tab (build_server_config_form_state page))
        ≡ settings_of p
  unfolding build_server_config_form_state
  read_ddos-unchanged sys vpn tab page given =
      read_ddos-form_entries sys vpn tab (build_server_config_form_state page)
      ∙ rw given (ap complete_ddos shown ∙ h.complete)
