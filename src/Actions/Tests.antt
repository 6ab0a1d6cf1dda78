-- ===== src/Actions/Tests.antt =====
-- Examples of the actions: a form of each kind of data, a rule of the dialog, and further arguments.
use go_resolver.Base.{◌≡◌, refl, some, [], ◌∷◌, codes}
use go_resolver.FormState.Rules.{RuleForm, default_rule_form}
use go_resolver.Update.Numbers.{is_go_space}
use go_resolver.Actions.{create_vpn_config_handler}
use go_resolver.Actions.Post.{handle_post, handled, resolve_action}
use go_resolver.Actions.Forms.{create_vpn_form, submitted, meant}
use go_resolver.Actions.Dispatch.{handle_post-meant, Handled, resolve_action-Handled}
use go_resolver.Actions.RuleForms.{parse_args}
use go_resolver.Actions.Arguments.{spaced, parse_args-spaced}

handle_post-meant_example :
    handle_post
      (λ s. s)
      (codes "POST")
      (some (submitted (create_vpn_form (codes "10.8.0.2") (codes "secret"))))
    ≡ handled create_vpn_config_handler
unfolding meant
handle_post-meant_example =
    handle_post-meant (λ s. s) (λ s h. refl) (create_vpn_form (codes "10.8.0.2") (codes "secret"))

resolve_action-Handled_example :
    Handled
      (resolve_action (λ s. s) ((codes "active_tab", codes "tab5") ∷ (codes "id", codes "3") ∷ []))
resolve_action-Handled_example =
    resolve_action-Handled (λ s. s)
      ((codes "active_tab", codes "tab5") ∷ (codes "id", codes "3") ∷ [])

-- A limit of connections, for which the dialog shows the target DROP.
abbrev limit_form : RuleForm
limit_form = record default_rule_form {
  source_ip = codes "1.2.3.4";
  conn_limit = codes "20";
  target = codes "DROP";
}

parse_args-spaced_example :
    parse_args (spaced (codes "-j" ∷ codes "A" ∷ [])) ≡ codes "-j" ∷ codes "A" ∷ []
unfolding is_go_space
parse_args-spaced_example = parse_args-spaced (codes "-j" ∷ codes "A" ∷ []) (
  (λ e. cc, ((refl, refl, refl, refl), ((refl, refl, refl, refl), tt))),
  ((λ e. cc, ((refl, refl, refl, refl), tt)), tt),
)
