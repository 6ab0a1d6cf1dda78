-- ===== src/ConfigPage/Tests.antt =====
-- Examples of the page of a server: its options, its forms, and its editor.
use go_resolver.Base.{
  false, In, Text, ◌≡◌, refl, true, none, some, [], ◌∷◌, ◌++◌, codes, decimal, ◌===◌, strip_prefix,
}
use go_resolver.Base.Url.{UrlParams}
use go_resolver.Spa.{Url, initial}
use go_resolver.Spa.Events.{text, handle_submit, ignored}
use go_resolver.ConfigPage.{action_path, spa_ignore_of, submit_action_form}
use go_resolver.ConfigPage.Ignored.{handle_submit-action_path}
use go_resolver.ConfigPage.Editor.{
  Editor, Editing, here, start, ask, respond, read, open_request, save_request, take_text,
  take_response, closed_editor,
}
use go_resolver.ConfigPage.Editor.Asked.{save_request-asked, save_request-crossed}

other_action_test : spa_ignore_of (codes "/servers/3/delete") ≡ none
unfolding spa_ignore_of strip_prefix ◌===◌
other_action_test = refl

abbrev no_params : UrlParams
no_params = record { parse = λ _. []; to_string = λ _. [] }

abbrev server_url : Url
server_url = record {
  origin = codes "https://panel";
  location = record { pathname = codes "/servers/7/server_configuration"; search = [] };
  href = codes "https://panel/servers/7/server_configuration";
}

handle_submit-action_path_example :
    handle_submit no_params
      (submit_action_form
        (action_path (decimal 7))
        server_url
        (codes "Delete this site?")
        true
        []
        ((codes "id", text (codes "3")) ∷ [])
        (some (codes "action_type", codes "delete")))
      (initial no_params (codes "https://panel") server_url.location)
    ≡ ignored
handle_submit-action_path_example =
    handle_submit-action_path no_params 7 server_url (codes "Delete this site?") true []
      ((codes "id", text (codes "3")) ∷ []) (some (codes "action_type", codes "delete"))
      (initial no_params (codes "https://panel") server_url.location)

-- The file 4 has been opened.
abbrev opened_editor : Editor
opened_editor = take_text (codes "<h1>") (take_response (codes "4") closed_editor)

asked_four : open_request (some (codes "4")) ≡ some (codes "/error-files/4")
unfolding open_request
asked_four = refl

asked_five : open_request (some (codes "5")) ≡ some (codes "/error-files/5")
unfolding open_request
asked_five = refl

opened_editor-Editing :
    Editing false (codes "4" ∷ []) [] ((codes "4", codes "<h1>") ∷ []) [] opened_editor
opened_editor-Editing =
    read here
      (respond (codes "<h1>") here (ask (codes "4") (codes "/error-files/4") asked_four start))

save_request-asked_example :
    (id : Text) × In id (codes "4" ∷ [])
    × ((save_request opened_editor).url ≡ codes "/error-files/" ++ id)
save_request-asked_example =
    save_request-asked false (codes "4" ∷ []) [] ((codes "4", codes "<h1>") ∷ []) [] opened_editor
      opened_editor-Editing refl

save_request-crossed_example :
    (e : Editor) × Editing false
      (codes "5" ∷ codes "4" ∷ [])
      []
      ((codes "5", codes "five") ∷ (codes "4", codes "four") ∷ [])
      []
      e
    × (e.opened ≡ true)
    × ((save_request e).url ≡ codes "/error-files/" ++ codes "5")
    × ((save_request e).body ≡ codes "four")
save_request-crossed_example =
    save_request-crossed (codes "4") (codes "5") (codes "four") (codes "five") asked_four asked_five
