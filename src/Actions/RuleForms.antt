-- ===== src/Actions/RuleForms.antt =====
-- A rule from the dialog of the page to the firewall: the form of
-- web/frontend/src/pages/server-config-page.tsx, and `AddRule` of
-- internal/handlers/serverconfiguration_handler.go with `parseArgs`. The comment that `withRuleComment`
-- makes, with the time of the clock, is an argument.
use go_resolver.Base.{
  Text, ℕ, Bool, true, false, not, ◌&&◌, ◌||◌, Option, none, some, List, [], ◌∷◌, ◌++◌, codes, ◌==◌,
  ◌===◌, if◌then◌else◌,
}
use go_resolver.Base.Int.{pos}
use go_resolver.FormState.Rules.{RuleForm}
use go_resolver.Update.Numbers.{trim_space, atoi}
use go_resolver.Update.Submission.{Entries, when}
use go_resolver.Update.Reading.{form_value}
use go_resolver.Update.Handler.{Reply, http_error, see_other}
use go_resolver.Firewall.{Iptables}
use go_resolver.Firewall.Families.{Addresses}
use go_resolver.Firewall.Rules.{IptablesRuleSpec, add_rule}

-- The controls of the dialog that are always there.
unfoldable pub rule_inputs : RuleForm → Entries
rule_inputs form =
    (codes "rule_type", form.rule_type)
    ∷ (codes "protocol", form.protocol)
    ∷ (codes "rule_table", form.rule_table)
    ∷ (codes "rule_chain", form.rule_chain)
    ∷ (codes "rule_action", form.rule_action)
    ∷ (codes "rule_position", form.rule_position)
    ∷ (codes "source_ip", form.source_ip)
    ∷ (codes "dest_ip", form.dest_ip)
    ∷ (codes "source_port", form.source_port)
    ∷ (codes "port", form.port)
    ∷ []

-- The controls that depend on the type of the rule.
unfoldable pub type_inputs : RuleForm → Entries
type_inputs form =
    when (form.rule_type === codes "connlimit") ((codes "conn_limit", form.conn_limit) ∷ [])
    ++ (when ((form.rule_type === codes "syn") || (form.rule_type === codes "ratelimit"))
          ((codes "rate", form.rate) ∷ (codes "burst", form.burst) ∷ [])
        ++ when (form.rule_type === codes "dnat")
            ((codes "to_ip", form.to_ip) ∷ (codes "to_port", form.to_port) ∷ []))

-- What the dialog submits, with its button.
unfoldable pub rule_entries : RuleForm → Entries
unfolding rule_inputs type_inputs
rule_entries form =
    (codes "active_tab", codes "tab6")
    ∷ (codes "action_type", codes "add_rule")
    ∷ (rule_inputs form
        ++ (type_inputs form
            ++ ((codes "rule_comment", form.rule_comment)
                ∷ (codes "extra_args", form.extra_args)
                ∷ (codes "action_type", codes "add_rule")
                ∷ [])))

-- The variables of the loop of `parseArgs`.
pub record ArgState : Type 0 where
  pub current : Text
  pub in_single : Bool
  pub in_double : Bool
  pub escaping : Bool

abbrev pub written : ℕ → ArgState → ArgState
written c st = record st { current = st.current ++ c ∷ [] }

-- The body of the loop, with the argument that it ends, if it ends one.
unfoldable pub arg_step : ArgState → ℕ → ArgState × Option Text
arg_step st c =
    if st.escaping
    then (record (written c st) { escaping = false }, none)
    else if c == b'\\'
    then (record st { escaping = true }, none)
    else if (c == 39) && not st.in_double
    then (record st { in_single = not st.in_single }, none)
    else if (c == 34) && not st.in_single
    then (record st { in_double = not st.in_double }, none)
    else if not ((c == b' ') || (c == 9) || (c == 10))
    then (written c st, none)
    else if st.in_single || st.in_double
    then (written c st, none)
    else if st.current === []
    then (st, none)
    else (record st { current = [] }, some st.current)

unfoldable pub parse_args_from : ArgState → Text → List Text
unfolding arg_step
parse_args_from st [] = if st.current === [] then [] else st.current ∷ []
parse_args_from st (c ∷ s) =
    let (next, ended) = arg_step st c in
    let rest = parse_args_from next s in elim ended [ none ↦ rest | some arg ↦ arg ∷ rest ]

abbrev pub no_args : ArgState
no_args = record { current = []; in_single = false; in_double = false; escaping = false }

-- `parseArgs`
unfoldable pub parse_args : Text → List Text
unfolding parse_args_from
parse_args input = parse_args_from no_args (trim_space input)

-- The rule that the form describes, before its type is looked at.
unfoldable pub read_rule : Entries → IptablesRuleSpec
unfolding parse_args
read_rule form =
    let unplaced =
      (form_value (codes "rule_table") form === [])
      || (form_value (codes "rule_chain") form === []) in
    let nat = form_value (codes "rule_type") form === codes "dnat" in
    record {
      family = [];
      table =
          if unplaced
          then (if nat then codes "nat" else codes "filter")
          else form_value (codes "rule_table") form;
      chain =
          if unplaced
          then (if nat then codes "PREROUTING" else codes "INPUT")
          else form_value (codes "rule_chain") form;
      action = form_value (codes "rule_action") form;
      position = atoi (form_value (codes "rule_position") form);
      protocol = form_value (codes "protocol") form;
      in_interface = form_value (codes "in_interface") form;
      out_interface = form_value (codes "out_interface") form;
      source_ip = form_value (codes "source_ip") form;
      dest_ip = form_value (codes "dest_ip") form;
      source_port = atoi (form_value (codes "source_port") form);
      dest_port = atoi (form_value (codes "port") form);
      conn_limit = none;
      limit_rate = [];
      limit_burst = [];
      syn_only = false;
      conn_state = form_value (codes "conn_state") form;
      icmp_type = form_value (codes "icmp_type") form;
      to_ip = [];
      to_port = pos 0;
      target = form_value (codes "target") form;
      comment = [];
      log_prefix = form_value (codes "log_prefix") form;
      log_level = form_value (codes "log_level") form;
      reject_with = form_value (codes "reject_with") form;
      extra_args = parse_args (form_value (codes "extra_args") form);
    }

-- The switch over the type of the rule, but for the comments.
unfoldable pub typed_rule : Entries → IptablesRuleSpec → IptablesRuleSpec
typed_rule form spec =
    let type = form_value (codes "rule_type") form in
    let rate = form_value (codes "rate") form in
    let burst = form_value (codes "burst") form in
    if type === codes "connlimit"
    then record spec { conn_limit = some (atoi (form_value (codes "conn_limit") form)) }
    else if type === codes "ratelimit"
    then record spec { limit_rate = rate; limit_burst = burst }
    else if type === codes "syn"
    then record spec { limit_rate = rate; limit_burst = burst; syn_only = true }
    else if type === codes "dnat"
    then record spec {
      to_ip = form_value (codes "to_ip") form;
      to_port = atoi (form_value (codes "to_port") form);
      target = codes "DNAT";
    }
    else if type === codes "masquerade"
    then record spec {
      target = codes "MASQUERADE";
      table = codes "nat";
      chain = codes "POSTROUTING";
    }
    else if type === codes "block"
    then record spec { target = codes "DROP" }
    else if type === codes "allow"
    then record spec { target = codes "ACCEPT" }
    else spec

unfoldable pub rule_spec : (comment : Text) → Entries → IptablesRuleSpec
unfolding read_rule typed_rule
rule_spec comment form = record (typed_rule form (read_rule form)) { comment = comment }

-- The handler `AddRule`.
unfoldable pub add_rule_post :
    {F : Type 0}
    → Iptables F
    → Addresses
    → (Text → Text → Bool)
    → (server_id comment : Text) → Option Entries
    → F
    → F × Reply
unfolding rule_spec
add_rule_post ip net equal_fold server_id comment form s = elim form [
  | none ↦ (s, http_error 400 (codes "Invalid form"))
  | some entries ↦
      let (t, failed) = add_rule ip net equal_fold (rule_spec comment entries) s in
      elim failed [
        | some e ↦ (t, http_error 500 e)
        | none ↦ (t, see_other server_id (codes "tab6"))
      ]
]
