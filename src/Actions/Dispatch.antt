-- ===== src/Actions/Dispatch.antt =====
-- Every form of the page reaches the handler that it is meant for, and every action that a form can be
-- taken for has a handler.
use go_resolver.Base.{
  Text, ◌≡◌, ◌⊎◌, inl, inr, refl, Bool, true, false, not, ◌&&◌, ◌||◌, some, [], ◌∷◌, codes, ◌==◌,
  ◌===◌, leb, lookup, if◌then◌else◌,
}
use go_resolver.Markup.{replace_all}
use go_resolver.Base.Trim.{trim_by}
use go_resolver.Update.Numbers.{trim_space, is_go_space}
use go_resolver.Update.Submission.{Entries, form_entries}
use go_resolver.Update.Reading.{form_values, form_value}
use go_resolver.Actions.{
  Handler, post_handlers, normalize_action, canonical_normal, canonical_action,
}
use go_resolver.Actions.Inference.{
  infer_action, infer_at_tab, infer_update, has_form_value, has_any_form_value, names_rule,
  has_any_form_key, update_keys, rule_keys, file_keys,
}
use go_resolver.Actions.Post.{resolve_action, handle_post, handled}
use go_resolver.Actions.Forms.{
  PageForm, update_form, delete_form, delete_error_page_form, create_vpn_form, renew_cert_form,
  delete_cert_form, issue_cert_form, delete_error_file_form, add_rule_form, delete_rule_form,
  unban_form, submitted, action_form, meant,
}
use go_resolver.Actions.RuleForms.{rule_entries}

-- Small letters, digits, dashes and underscores.
unfoldable pub is_low : Text → Bool
is_low [] = true
is_low (c ∷ s) =
    ((leb b'a' c && leb c b'z') || (leb b'0' c && leb c b'9') || (c == b'-') || (c == b'_'))
    && is_low s

-- The action without the letter case.
abbrev plain_action : Text → Text
plain_action a =
    canonical_normal (replace_all b' ' (codes "_") (replace_all b'-' (codes "_") (trim_space a)))

module _ (lower : Text → Text) (keeps : (s : Text) → is_low s ≡ true → lower s ≡ s) where
  handle_post-handled :
      (a : Text) (entries : Entries) (h : Handler)
      → form_value (codes "action_type") entries ≡ a
      → is_low a ≡ true
      → (plain_action a === []) ≡ false
      → lookup (plain_action a) post_handlers ≡ some h
      → handle_post lower (codes "POST") (some entries) ≡ handled h
  unfolding handle_post resolve_action canonical_action normalize_action ◌===◌
  handle_post-handled a entries h value low full found =
      rw (value, keeps a low, full, found, resolve_action, canonical_action, normalize_action) refl

  -- A form of the page that is posted reaches its handler, whatever data it stands beside.
  pub handle_post-meant :
      (f : PageForm) → handle_post lower (codes "POST") (some (submitted f)) ≡ handled (meant f)
  unfolding submitted action_form form_entries rule_entries form_values meant is_low trim_space
      trim_by is_go_space replace_all canonical_normal lookup post_handlers ◌===◌
  handle_post-meant (update_form is_system editing has_vpn tab form) =
      handle_post-handled (codes "update")
        (submitted (update_form is_system editing has_vpn tab form)) _ refl refl refl refl
  handle_post-meant (delete_form id server_name) =
      handle_post-handled (codes "delete") (submitted (delete_form id server_name)) _ refl refl refl
        refl
  handle_post-meant (delete_error_page_form id) =
      handle_post-handled (codes "delete_error_page") (submitted (delete_error_page_form id)) _ refl
        refl refl refl
  handle_post-meant (create_vpn_form vpn_ip pass) =
      handle_post-handled (codes "create-vpn-file") (submitted (create_vpn_form vpn_ip pass)) _ refl
        refl refl refl
  handle_post-meant (renew_cert_form id) =
      handle_post-handled (codes "renew_cert") (submitted (renew_cert_form id)) _ refl refl refl
        refl
  handle_post-meant (delete_cert_form id) =
      handle_post-handled (codes "delete_cert") (submitted (delete_cert_form id)) _ refl refl refl
        refl
  handle_post-meant (issue_cert_form id server_name) =
      handle_post-handled (codes "issue_cert") (submitted (issue_cert_form id server_name)) _ refl
        refl refl refl
  handle_post-meant (delete_error_file_form id filename path) =
      handle_post-handled (codes "delete_error_file")
        (submitted (delete_error_file_form id filename path)) _ refl refl refl refl
  handle_post-meant (add_rule_form form) =
      handle_post-handled (codes "add_rule") (submitted (add_rule_form form)) _ refl refl refl refl
  handle_post-meant (delete_rule_form table chain extra) =
      handle_post-handled (codes "delete_rule") (submitted (delete_rule_form table chain extra)) _
        refl refl refl refl
  handle_post-meant (unban_form ip) =
      handle_post-handled (codes "unban_fail2ban") (submitted (unban_form ip)) _ refl refl refl refl

-- No action, or one with a handler.
abbrev pub Handled : Text → Type 0
Handled a = (a ≡ []) ⊎ ((h : Handler) × (lookup a post_handlers ≡ some h))

either : (test : Bool) {a b : Text} → Handled a → Handled b → Handled (if test then a else b)
either true h k = h
either false h k = k

known : {a : Text} {h : Handler} → lookup a post_handlers ≡ some h → Handled a
known {h = h} e = inr (h, e)

canonical_normal-Handled : (s : Text) → Handled (canonical_normal s)
unfolding canonical_normal lookup post_handlers ◌===◌
canonical_normal-Handled s = either (s === codes "update") (known refl) (
    either (s === codes "delete") (known refl) (
      either ((s === codes "issue_cert") || (s === codes "issuecert")) (known refl) (
        either ((s === codes "renew_cert") || (s === codes "renewcert")) (known refl) (
          either ((s === codes "delete_cert") || (s === codes "deletecert")) (known refl) (
            either ((s === codes "delete_error_page") || (s === codes "deleteerrorpage"))
              (known refl)
              (either ((s === codes "delete_error_file") || (s === codes "deleteerrorfile"))
                (known refl)
                (either ((s === codes "add_rule") || (s === codes "addrule")) (known refl) (
                  either ((s === codes "delete_rule") || (s === codes "deleterule")) (known refl) (
                    either ((s === codes "create_vpn_file") || (s === codes "createvpnfile"))
                      (known refl)
                      (either ((s === codes "unban_fail2ban") || (s === codes "unbanfail2ban"))
                        (known refl) (inl refl)))))))))))

infer_update-Handled : (form : Entries) → Handled (infer_update form)
unfolding infer_update lookup post_handlers ◌===◌
infer_update-Handled form = either (has_any_form_key form update_keys) (known refl) (inl refl)

infer_at_tab-Handled : (tab : Text) (form : Entries) → Handled (infer_at_tab tab form)
unfolding infer_at_tab lookup post_handlers ◌===◌
infer_at_tab-Handled tab form =
    let id = has_form_value form (codes "id") in
    let named = id && has_form_value form (codes "serverName") in
    let rest = infer_update-Handled form in
    let act : (a : Text) (h : Handler) → lookup a post_handlers ≡ some h → Handled a =
      λ a h e. inr (h, e) in
    either (tab === codes "tab3") (either named (act (codes "delete") _ refl) rest) (
      either (tab === codes "tab4") (either named (act (codes "issue_cert") _ refl) rest) (
        either (tab === codes "tab5")
          (either (not id) rest (
            either (has_any_form_value form file_keys) (act (codes "delete_error_file") _ refl)
              (act (codes "delete_error_page") _ refl)))
          (either (tab === codes "tab6")
            (either (names_rule form) (act (codes "delete_rule") _ refl)
              (either (has_any_form_value form rule_keys) (act (codes "add_rule") _ refl) rest))
            (either (tab === codes "tab8")
              (either (has_form_value form (codes "fail2ban_ip"))
                (act (codes "unban_fail2ban") _ refl) rest)
              rest))))

infer_action-Handled : (form : Entries) → Handled (infer_action form)
unfolding infer_action lookup post_handlers ◌===◌
infer_action-Handled form = either (has_form_value form (codes "fail2ban_ip")) (known refl) (
    either (names_rule form) (known refl) (
      either (has_any_form_value form rule_keys) (known refl) (
        either (has_form_value form (codes "id") && has_any_form_value form file_keys) (known refl)
          (either (has_form_value form (codes "pass") && has_form_value form (codes "vpn_ip"))
            (known refl)
            (infer_at_tab-Handled (trim_space (form_value (codes "active_tab") form)) form)))))

-- Whatever the form, the action that is found has a handler, or there is none: the switch, the guesses by
-- the fields and the table of handlers agree.
pub resolve_action-Handled :
    (lower : Text → Text) (form : Entries) → Handled (resolve_action lower form)
unfolding resolve_action canonical_action
resolve_action-Handled lower form =
    either (canonical_action lower (form_value (codes "action_type") form) === [])
      (infer_action-Handled form)
      (canonical_normal-Handled (normalize_action lower (form_value (codes "action_type") form)))
