-- ===== src/Actions/Targets.antt =====
-- What a rule of the dialog does: its target is that of its type, and the target that the state of the
-- dialog keeps is not submitted, since no control has its name.
use go_resolver.Base.{Text, Bool, true, not, ◌&&◌, [], ◌∷◌, codes, ◌===◌, if◌then◌else◌}
use go_resolver.FormState.Rules.{RuleForm}
use go_resolver.Update.Submission.{Entries}
use go_resolver.Update.Reading.{form_value}
use go_resolver.Firewall.Rules.{IptablesRuleSpec}
use go_resolver.Actions.RuleForms.{rule_entries, rule_spec}

-- No entry has the name.
unfoldable absent : Text → Entries → Bool
absent name [] = true
absent name ((key, value) ∷ rest) = not (key === name) && absent name rest

-- The types whose rules have a target.
abbrev pub target_of : Text → Text
target_of type =
    if type === codes "dnat"
    then codes "DNAT"
    else if type === codes "masquerade"
    then codes "MASQUERADE"
    else if type === codes "block"
    then codes "DROP"
    else if type === codes "allow"
    then codes "ACCEPT"
    else []

module _ (entries : Entries) (spec : IptablesRuleSpec) where
  abbrev type_here : Text
  type_here = form_value (codes "rule_type") entries

module _ (form : RuleForm) (comment : Text) where
  abbrev pub dialog_spec : IptablesRuleSpec
  dialog_spec = rule_spec comment (rule_entries form)
