-- ===== src/FormState/Policies.antt =====
-- The policies of a server: `DDoSPolicy` and `Fail2BanPolicy` of web/frontend/src/types.ts, and
-- `mapDDoS` and `mapFail2Ban` of web/frontend/src/pages/server-config-helpers.ts.
use go_resolver.Base.{Text, ℕ, Bool, false, Option, none, codes, or_text, text_or_empty}
use go_resolver.FormState.Sites.{number_text}

-- `DDoSPolicy`; `{}` stands for a missing policy.
pub record DdosPolicy : Type 0 where
  pub enabled : Bool
  pub mode : Option Text
  pub preset : Option Text
  pub rate_limit : Option ℕ
  pub burst : Option ℕ
  pub conn_limit : Option ℕ
  pub syn_rate : Option ℕ
  pub syn_burst : Option ℕ
  pub challenge_delay : Option ℕ
  pub cookie_ttl : Option ℕ
  pub whitelist : Option Text

pub record DdosForm : Type 0 where
  pub enabled : Bool
  pub mode : Text
  pub preset : Text
  pub rate_limit : Text
  pub burst : Text
  pub conn_limit : Text
  pub syn_rate : Text
  pub syn_burst : Text
  pub challenge_delay : Text
  pub cookie_ttl : Text
  pub whitelist : Text

abbrev pub no_ddos_policy : DdosPolicy
no_ddos_policy = record {
  enabled = false;
  mode = none;
  preset = none;
  rate_limit = none;
  burst = none;
  conn_limit = none;
  syn_rate = none;
  syn_burst = none;
  challenge_delay = none;
  cookie_ttl = none;
  whitelist = none;
}

unfoldable pub map_ddos : DdosPolicy → DdosForm
map_ddos policy = record {
  enabled = policy.enabled;
  mode = or_text (text_or_empty policy.mode) (codes "off");
  preset = or_text (text_or_empty policy.preset) (codes "medium");
  rate_limit = number_text policy.rate_limit;
  burst = number_text policy.burst;
  conn_limit = number_text policy.conn_limit;
  syn_rate = number_text policy.syn_rate;
  syn_burst = number_text policy.syn_burst;
  challenge_delay = number_text policy.challenge_delay;
  cookie_ttl = number_text policy.cookie_ttl;
  whitelist = text_or_empty policy.whitelist;
}

-- `Fail2BanPolicy`
pub record Fail2banPolicy : Type 0 where
  pub enabled : Bool
  pub max_retry : Option ℕ
  pub find_time_seconds : Option ℕ
  pub ban_time_seconds : Option ℕ
  pub status_codes : Option Text
  pub ignore_ips : Option Text
  pub use_x_forwarded_for : Bool
  pub ban_globally : Bool

pub record Fail2banForm : Type 0 where
  pub enabled : Bool
  pub max_retry : Text
  pub find_time_seconds : Text
  pub ban_time_seconds : Text
  pub status_codes : Text
  pub ignore_ips : Text
  pub use_x_forwarded_for : Bool
  pub ban_globally : Bool

abbrev pub no_fail2ban_policy : Fail2banPolicy
no_fail2ban_policy = record {
  enabled = false;
  max_retry = none;
  find_time_seconds = none;
  ban_time_seconds = none;
  status_codes = none;
  ignore_ips = none;
  use_x_forwarded_for = false;
  ban_globally = false;
}

unfoldable pub map_fail2ban : Fail2banPolicy → Fail2banForm
map_fail2ban policy = record {
  enabled = policy.enabled;
  max_retry = number_text policy.max_retry;
  find_time_seconds = number_text policy.find_time_seconds;
  ban_time_seconds = number_text policy.ban_time_seconds;
  status_codes = text_or_empty policy.status_codes;
  ignore_ips = text_or_empty policy.ignore_ips;
  use_x_forwarded_for = policy.use_x_forwarded_for;
  ban_globally = policy.ban_globally;
}
