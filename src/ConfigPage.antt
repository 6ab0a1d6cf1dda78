-- ===== src/ConfigPage.antt =====
-- The state of the page of a server, `ServerConfigurationPageView` of
-- web/frontend/src/pages/server-config-page.tsx, behind its form: the sites to choose from, editing and its
-- end, and the dialogs for the files of the error pages; and `ActionForm` of web/frontend/src/common.tsx.
pub mod Editor
pub mod Ignored
mod Tests
use go_resolver.Base.{
  Text, ℕ, Bool, true, false, not, ◌&&◌, ◌||◌, Option, none, some, List, [], ◌∷◌, ◌++◌, codes, map,
  ◌===◌, truthy, is_digit, strip_prefix, if◌then◌else◌,
}
use go_resolver.FormState.Sites.{SiteRow}
use go_resolver.FormState.State.{ServerConfigForm}
use go_resolver.Spa.Events.{Value, text, file, Form}
use go_resolver.Spa.{Url}

-- `actionPath`
abbrev pub action_path : Text → Text
action_path server_id = codes "/servers/" ++ (server_id ++ codes "/server_configuration")

-- The options of the select for a site, with their labels.
unfoldable pub site_options : List SiteRow → List (Text × Text)
site_options sites =
    (codes "*", codes "All sites")
    ∷ map
        (λ (site : SiteRow).
          (site.id, if truthy site.server_name then site.server_name else codes "Site " ++ site.id))
        sites

-- The state of the form: what is shown, and whether it can be edited.
pub record Edited : Type 0 where
  pub form_state : ServerConfigForm
  pub editing : Bool

-- The button to edit.
abbrev pub edit_fields : Edited → Edited
edit_fields s = record s { editing = true }

-- The button to cancel, with the initial state of the page.
abbrev pub cancel : ServerConfigForm → Edited → Edited
cancel initial s = record { form_state = initial; editing = false }

-- The effect of [initialState].
abbrev pub reset : ServerConfigForm → Edited → Edited
reset initial s = record s { form_state = initial }

-- Behind the digits.
unfoldable pub after_digits : Text → Text
after_digits [] = []
after_digits (c ∷ s) = let rest = after_digits s in if is_digit c then rest else c ∷ s

abbrev pub begins_with_digit : Text → Bool
begins_with_digit [] = false
begins_with_digit (c ∷ s) = is_digit c

-- A match of `/\/servers\/\d+\/server_configuration$/` at the beginning of the text.
unfoldable pub matches_here : Text → Bool
unfolding after_digits
matches_here s = elim (strip_prefix (codes "/servers/") s) [
  | none ↦ false
  | some rest ↦ begins_with_digit rest && (after_digits rest === codes "/server_configuration")
]

-- `test`, which looks for a match anywhere.
unfoldable pub is_server_action : Text → Bool
unfolding matches_here
is_server_action [] = matches_here []
is_server_action (c ∷ s) = matches_here (c ∷ s) || is_server_action s

-- The attribute `data-spa-ignore` of an `ActionForm`.
unfoldable pub spa_ignore_of : Text → Option Text
unfolding is_server_action
spa_ignore_of action = if is_server_action action then some (codes "true") else none

-- An `ActionForm` that is submitted: its handler prevents the default if the question is answered no.
unfoldable pub submit_action_form :
    (action : Text) (url : Url) (message : Text) (confirmed : Bool) (query : Text)
    → List (Text × Value)
    → Option (Text × Text)
    → Form
unfolding spa_ignore_of
submit_action_form action url message confirmed query entries submitter = record {
  default_prevented = truthy message && not confirmed;
  is_form = true;
  spa_ignore = spa_ignore_of action;
  method = codes "post";
  url = url;
  query = query;
  entries = entries;
  submitter = submitter;
}
