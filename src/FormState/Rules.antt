-- ===== src/FormState/Rules.antt =====
-- The form for a firewall rule of web/frontend/src/pages/server-config-helpers.ts:
-- `ruleTypeOptions`, `defaultRuleForm` and `applyRuleTypeDefaults`.
pub mod Defaults
use go_resolver.Base.{Text, not, List, [], ◌∷◌, codes, ◌===◌, if◌then◌else◌}

pub record RuleForm : Type 0 where
  pub rule_type : Text
  pub protocol : Text
  pub rule_table : Text
  pub rule_chain : Text
  pub rule_action : Text
  pub rule_position : Text
  pub source_ip : Text
  pub dest_ip : Text
  pub source_port : Text
  pub port : Text
  pub in_interface : Text
  pub out_interface : Text
  pub conn_limit : Text
  pub rate : Text
  pub burst : Text
  pub to_ip : Text
  pub to_port : Text
  pub conn_state : Text
  pub icmp_type : Text
  pub target : Text
  pub reject_with : Text
  pub log_prefix : Text
  pub log_level : Text
  pub rule_comment : Text
  pub extra_args : Text

-- The values of the options, each with its label.
unfoldable pub rule_type_options : List (Text × Text)
rule_type_options =
    (codes "connlimit", codes "Connection Limit")
    ∷ (codes "syn", codes "SYN Flood Protection")
    ∷ (codes "dnat", codes "DNAT (Port Forward)")
    ∷ (codes "ratelimit", codes "Rate Limit")
    ∷ (codes "block", codes "Block IP")
    ∷ (codes "allow", codes "Allow IP")
    ∷ (codes "masquerade", codes "Masquerade (NAT)")
    ∷ (codes "custom", codes "Custom / Advanced")
    ∷ []

unfoldable pub default_rule_form : RuleForm
default_rule_form = record {
  rule_type = codes "connlimit";
  protocol = codes "tcp";
  rule_table = codes "filter";
  rule_chain = codes "INPUT";
  rule_action = codes "append";
  rule_position = [];
  source_ip = [];
  dest_ip = [];
  source_port = [];
  port = [];
  in_interface = [];
  out_interface = [];
  conn_limit = [];
  rate = [];
  burst = [];
  to_ip = [];
  to_port = [];
  conn_state = [];
  icmp_type = [];
  target = codes "DROP";
  reject_with = [];
  log_prefix = [];
  log_level = [];
  rule_comment = [];
  extra_args = [];
}

abbrev pub aimed : Text → Text → Text → RuleForm → RuleForm
aimed table chain target f = record f { rule_table = table; rule_chain = chain; target = target }

unfoldable pub apply_rule_type_defaults : Text → RuleForm → RuleForm
apply_rule_type_defaults type current =
    let next = record current { rule_type = type } in
    if type === codes "dnat"
    then aimed (codes "nat") (codes "PREROUTING") (codes "DNAT") next
    else if type === codes "masquerade"
    then aimed (codes "nat") (codes "POSTROUTING") (codes "MASQUERADE") next
    else if type === codes "allow"
    then aimed (codes "filter") (codes "INPUT") (codes "ACCEPT") next
    else if type === codes "block"
    then aimed (codes "filter") (codes "INPUT") (codes "DROP") next
    else if not (type === codes "custom")
    then record next { rule_table = codes "filter"; rule_chain = codes "INPUT" }
    else next
