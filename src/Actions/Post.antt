-- ===== src/Actions/Post.antt =====
-- `HandlePost` of internal/handlers/serverconfiguration_actions.go, with the resolution of the action.
use go_resolver.Base.{Text, ℕ, not, Option, none, some, [], codes, ◌===◌, lookup, if◌then◌else◌}
use go_resolver.Update.Submission.{Entries}
use go_resolver.Update.Reading.{form_value}
use go_resolver.Actions.{Handler, post_handlers, canonical_action}
use go_resolver.Actions.Inference.{infer_action}

-- `resolveServerConfigurationAction`
unfoldable pub resolve_action : (Text → Text) → Entries → Text
unfolding canonical_action infer_action
resolve_action lower form =
    let action = canonical_action lower (form_value (codes "action_type") form) in
    if action === [] then infer_action form else action

-- What a request comes to: an error with its status, or a handler.
pub data Dispatched : Type 0 where
  refused : ℕ → Text → Dispatched
  handled : Handler → Dispatched

-- `HandlePost`, by the method and the form, if it can be parsed.
unfoldable pub handle_post : (Text → Text) → Text → Option Entries → Dispatched
unfolding resolve_action post_handlers
handle_post lower method form =
    if not (method === codes "POST") then refused 405 (codes "Method not allowed") else elim form [
      | none ↦ refused 400 (codes "Invalid form")
      | some entries ↦ elim (lookup (resolve_action lower entries) post_handlers) [
        | none ↦ refused 400 (codes "Unknown action")
        | some handler ↦ handled handler
      ]
    ]
