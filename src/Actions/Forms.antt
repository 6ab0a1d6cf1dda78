-- ===== src/Actions/Forms.antt =====
-- The forms of web/frontend/src/pages/server-config-page.tsx, with `ActionForm` of
-- web/frontend/src/common.tsx: what each submits, by the data of its row.
use go_resolver.Base.{Text, Bool, Option, none, some, List, [], ◌∷◌, ◌++◌, codes, flat_map}
use go_resolver.FormState.Rules.{RuleForm}
use go_resolver.FormState.State.{ServerConfigForm}
use go_resolver.Update.Submission.{Entries, form_entries}
use go_resolver.Actions.{
  Handler, update_handler, delete_handler, issue_cert_handler, renew_cert_handler,
  delete_cert_handler, delete_error_page_handler, delete_error_file_handler, add_rule_handler,
  delete_rule_handler, create_vpn_config_handler, unban_fail2ban_handler,
}
use go_resolver.Actions.RuleForms.{rule_entries}

-- A hidden input, unless its value is undefined.
abbrev pub hidden : Text × Option Text → Entries
hidden (name, none) = []
hidden (name, some value) = (name, value) ∷ []

-- `ActionForm`, with the button that submits it.
unfoldable pub action_form : List (Text × Option Text) → (action : Text) → Entries
action_form fields action = flat_map hidden fields ++ (codes "action_type", action) ∷ []

-- The forms of the page; the data of a row can lack its fields.
pub data PageForm : Type 0 where
  update_form : (is_system editing has_vpn : Bool) → Text → ServerConfigForm → PageForm
  delete_form : (id server_name : Option Text) → PageForm
  delete_error_page_form : (id : Option Text) → PageForm
  create_vpn_form : (vpn_ip pass : Text) → PageForm
  renew_cert_form : (id : Option Text) → PageForm
  delete_cert_form : (id : Option Text) → PageForm
  issue_cert_form : (id server_name : Option Text) → PageForm
  delete_error_file_form : (id filename path : Option Text) → PageForm
  add_rule_form : RuleForm → PageForm
  delete_rule_form : (table chain extra : Option Text) → PageForm
  unban_form : (ip : Option Text) → PageForm

-- The two fields that each of them begins with.
abbrev pub action_fields :
    (tab action : Text) → List (Text × Option Text) → List (Text × Option Text)
action_fields tab action fields =
    (codes "active_tab", some tab) ∷ (codes "action_type", some action) ∷ fields

unfoldable pub submitted : PageForm → Entries
unfolding action_form form_entries rule_entries
submitted (update_form is_system editing has_vpn tab form) =
    form_entries is_system editing has_vpn tab form
submitted (delete_form id server_name) =
    action_form
      (action_fields (codes "tab3") (codes "delete")
        ((codes "id", id) ∷ (codes "serverName", server_name) ∷ []))
      (codes "delete")
submitted (delete_error_page_form id) =
    action_form (action_fields (codes "tab5") (codes "delete_error_page") ((codes "id", id) ∷ []))
      (codes "delete_error_page")
submitted (create_vpn_form vpn_ip pass) =
    (codes "active_tab", codes "tab2")
    ∷ (codes "action_type", codes "create-vpn-file")
    ∷ (codes "vpn_ip", vpn_ip)
    ∷ (codes "pass", pass)
    ∷ (codes "action_type", codes "create-vpn-file")
    ∷ []
submitted (renew_cert_form id) =
    action_form (action_fields (codes "tab4") (codes "renew_cert") ((codes "id", id) ∷ []))
      (codes "renew_cert")
submitted (delete_cert_form id) =
    action_form (action_fields (codes "tab4") (codes "delete_cert") ((codes "id", id) ∷ []))
      (codes "delete_cert")
submitted (issue_cert_form id server_name) =
    action_form
      (action_fields (codes "tab4") (codes "issue_cert")
        ((codes "id", id) ∷ (codes "serverName", server_name) ∷ []))
      (codes "issue_cert")
submitted (delete_error_file_form id filename path) =
    action_form
      (action_fields (codes "tab5") (codes "delete_error_file")
        ((codes "id", id) ∷ (codes "Filename", filename) ∷ (codes "Path", path) ∷ []))
      (codes "delete_error_file")
submitted (add_rule_form form) = rule_entries form
submitted (delete_rule_form table chain extra) =
    action_form
      (action_fields (codes "tab6") (codes "delete_rule")
        ((codes "table", table) ∷ (codes "chain", chain) ∷ (codes "comment", extra) ∷ []))
      (codes "delete_rule")
submitted (unban_form ip) =
    action_form
      (action_fields (codes "tab8") (codes "unban_fail2ban") ((codes "fail2ban_ip", ip) ∷ []))
      (codes "unban_fail2ban")

-- The handler that a form is meant for.
unfoldable pub meant : PageForm → Handler
meant (update_form _ _ _ _ _) = update_handler
meant (delete_form _ _) = delete_handler
meant (delete_error_page_form _) = delete_error_page_handler
meant (create_vpn_form _ _) = create_vpn_config_handler
meant (renew_cert_form _) = renew_cert_handler
meant (delete_cert_form _) = delete_cert_handler
meant (issue_cert_form _ _) = issue_cert_handler
meant (delete_error_file_form _ _ _) = delete_error_file_handler
meant (add_rule_form _) = add_rule_handler
meant (delete_rule_form _ _ _) = delete_rule_handler
meant (unban_form _) = unban_fail2ban_handler
