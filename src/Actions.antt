-- ===== src/Actions.antt =====
-- The actions of the page of a server: the forms of web/frontend/src/pages/server-config-page.tsx, each with
-- the action that it asks for, and `HandlePost` of internal/handlers/serverconfiguration_actions.go, which
-- finds the handler of a form. The messages of the log are left out; `lower` is `strings.ToLower`.
pub mod Inference
pub mod Post
pub mod Dispatch
pub mod Forms
pub mod RuleForms
pub mod Targets
pub mod Arguments
mod Tests
use go_resolver.Base.{
  Text, ℕ, Bool, true, false, not, ◌&&◌, ◌||◌, Option, none, some, List, [], ◌∷◌, ◌++◌, codes,
  ◌===◌, lookup, if◌then◌else◌,
}
use go_resolver.Markup.{replace_all}
use go_resolver.Update.Numbers.{trim_space}

-- The methods of `ServerConfigurationHandler` that a form can reach.
pub data Handler : Type 0 where
  update_handler : Handler
  delete_handler : Handler
  issue_cert_handler : Handler
  renew_cert_handler : Handler
  delete_cert_handler : Handler
  delete_error_page_handler : Handler
  delete_error_file_handler : Handler
  add_rule_handler : Handler
  delete_rule_handler : Handler
  create_vpn_config_handler : Handler
  unban_fail2ban_handler : Handler

-- `serverConfigurationPostHandlers`
unfoldable pub post_handlers : List (Text × Handler)
post_handlers =
    (codes "update", update_handler)
    ∷ (codes "delete", delete_handler)
    ∷ (codes "issue_cert", issue_cert_handler)
    ∷ (codes "renew_cert", renew_cert_handler)
    ∷ (codes "delete_cert", delete_cert_handler)
    ∷ (codes "delete_error_page", delete_error_page_handler)
    ∷ (codes "delete_error_file", delete_error_file_handler)
    ∷ (codes "add_rule", add_rule_handler)
    ∷ (codes "delete_rule", delete_rule_handler)
    ∷ (codes "create-vpn-file", create_vpn_config_handler)
    ∷ (codes "unban_fail2ban", unban_fail2ban_handler)
    ∷ []

-- `normalizeServerConfigurationAction`
unfoldable pub normalize_action : (Text → Text) → Text → Text
unfolding replace_all
normalize_action lower raw =
    replace_all b' ' (codes "_") (replace_all b'-' (codes "_") (trim_space (lower raw)))

-- The switch of `canonicalServerConfigurationAction`.
unfoldable pub canonical_normal : Text → Text
canonical_normal s =
    if s === codes "update"
    then codes "update"
    else if s === codes "delete"
    then codes "delete"
    else if (s === codes "issue_cert") || (s === codes "issuecert")
    then codes "issue_cert"
    else if (s === codes "renew_cert") || (s === codes "renewcert")
    then codes "renew_cert"
    else if (s === codes "delete_cert") || (s === codes "deletecert")
    then codes "delete_cert"
    else if (s === codes "delete_error_page") || (s === codes "deleteerrorpage")
    then codes "delete_error_page"
    else if (s === codes "delete_error_file") || (s === codes "deleteerrorfile")
    then codes "delete_error_file"
    else if (s === codes "add_rule") || (s === codes "addrule")
    then codes "add_rule"
    else if (s === codes "delete_rule") || (s === codes "deleterule")
    then codes "delete_rule"
    else if (s === codes "create_vpn_file") || (s === codes "createvpnfile")
    then codes "create-vpn-file"
    else if (s === codes "unban_fail2ban") || (s === codes "unbanfail2ban")
    then codes "unban_fail2ban"
    else []

-- `canonicalServerConfigurationAction`
unfoldable pub canonical_action : (Text → Text) → Text → Text
unfolding normalize_action canonical_normal
canonical_action lower raw = canonical_normal (normalize_action lower raw)
