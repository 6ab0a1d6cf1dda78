-- ===== src/Spa/Tests.antt =====
-- Runs of `App`, and the theorems at states that these runs reach.
use go_resolver.Base.{◌++◌}
use go_resolver.Base.{
  In, ◌↔◌, Text, ◌≡◌, ◌≢◌, ◌⊎◌, inl, refl, arith, [], ◌∷◌, none, some, true, false, codes, lookup,
  insert, erase, decimal, ◌===◌,
}
use go_resolver.Base.Url.{UrlParams, get_param}
use go_resolver.Route.{
  Page, response, normalize_path, match_digits, build_login_page, resolve_numbered, resolve_path,
  resolve_route, same_location,
}
use go_resolver.Route.Keys.{no_search}
use go_resolver.Spa.{
  Location, Url, no_options, Response, Spa, route_at, initial, initial_state, navigate,
  sync_location, refresh, refresh_key, invalidate_route_cache, handle_mutation_response,
}
use go_resolver.Spa.Loading.{
  Result, answered, same_page, same_route, same_text, same_deps, request_key, commit, settle,
  cached_page,
}
use go_resolver.Spa.Events.{
  Click, Anchor, handle_click, is_ignored, Form, text, file, multipart, form_body, with_submitter,
  has_binary_field, text_entries,
}
use go_resolver.Spa.Events.Forms.{CarriesText, HasText, form_body_lem}
use go_resolver.Spa.Events.Clicks.{IsTaken, handle_click_cases}
use go_resolver.Spa.Steps.{IsLocation, Reach, opened, next, renders, settles}
use go_resolver.Spa.Shown.{Belongs, IsUpToDate, shown_page-Belongs}
use go_resolver.Spa.Stable.{commit-IsUpToDate}
use go_resolver.Spa.Waiting.Progress.{Ends, loading-Ends}
use go_resolver.Spa.Mutations.{mutation_drops_cache}
use go_resolver.Spa.Screen.{
  loading_page, page_content, domains_page_view, in_shell, main_content, render_page, title_of,
  active_of, screen, document_title,
}
use go_resolver.Spa.Screen.Filled.{main_content-loading}
use go_resolver.Route.{active_for_view}
use go_resolver.Route.Menu.{page_titles}

abbrev no_params : UrlParams
no_params = record { parse = λ _. []; to_string = λ _. [] }

running : Unit {0}
unfolding resolve_route resolve_path resolve_numbered match_digits normalize_path build_login_page
    get_param ◌===◌ same_location initial initial_state navigate sync_location refresh refresh_key
    invalidate_route_cache handle_mutation_response same_page same_route same_text same_deps
    request_key commit settle lookup insert erase decimal handle_click is_ignored
running = tt

abbrev domains_at : Location
domains_at = record { pathname = codes "/domains"; search = [] }

domains_at-IsLocation : IsLocation domains_at
domains_at-IsLocation = record { pathname = omega arith; search = no_search }

abbrev opened_page : Spa
opened_page = initial no_params (codes "https://panel") domains_at

abbrev waiting_page : Spa
waiting_page = commit no_params opened_page

abbrev name : Text
name = codes "/domains:0"

abbrev answer : Result
answer = answered (codes "domains") (codes "domains")

abbrev answered_page : Spa
answered_page = settle 0 name answer waiting_page

abbrev loaded_page : Spa
loaded_page = commit no_params answered_page

abbrev page : Page
page = record { active = codes "domains"; view = codes "domains"; content = response 0 }

loading_tests :
    (waiting_page.state.loading ≡ true)
    × (waiting_page.requests ≡ codes "/api/pages/domains" ∷ [])
    × (waiting_page.outstanding ≡ (0, name) ∷ [])
    × (waiting_page.ran_with ≢ none)
unfolding running
loading_tests = (refl, refl, refl, λ e. cc)

loaded_tests :
    (loaded_page.state.loading ≡ false)
    × (loaded_page.state.error ≡ none)
    × (loaded_page.state.page ≡ some page)
    × (loaded_page.run ≡ 2)
    × (loaded_page.outstanding ≡ [])
unfolding running
loaded_tests = (refl, refl, refl, refl, refl)

waiting_page-Reach : Reach no_params waiting_page
waiting_page-Reach = next (opened (codes "https://panel") domains_at domains_at-IsLocation) renders

loaded_page-Reach : Reach no_params loaded_page
unfolding running
loaded_page-Reach = next (next waiting_page-Reach (settles 0 name answer (inl refl))) renders

waiting_screen : main_content waiting_page.state ≡ loading_page
unfolding running main_content
waiting_screen = refl

loaded_screen :
    (screen no_params loaded_page
      ≡ in_shell (codes "domains") (codes "Domains") (page_content domains_page_view))
    × (document_title no_params loaded_page ≡ codes "GoResolver " ++ 183 ∷ codes " Domains")
unfolding running main_content render_page screen title_of active_of document_title page_titles
    active_for_view
loaded_screen = (refl, refl)

main_content-loading_example : waiting_page.state.loading ≡ true
main_content-loading_example =
    main_content-loading no_params waiting_page waiting_page-Reach waiting_screen

loaded_page-IsUpToDate : IsUpToDate no_params loaded_page
unfolding running
loaded_page-IsUpToDate = refl

shown_page-Belongs_example :
    Belongs loaded_page.requests (route_at no_params loaded_page.location_state) page
shown_page-Belongs_example =
    shown_page-Belongs no_params loaded_page loaded_page-Reach loaded_page-IsUpToDate page
      loaded_tests.0 loaded_tests.1 loaded_tests.2

loading-Ends_example : Ends waiting_page
loading-Ends_example =
    loading-Ends no_params waiting_page waiting_page-Reach loading_tests.3 loading_tests.0

commit-IsUpToDate_example : IsUpToDate no_params (commit no_params waiting_page)
commit-IsUpToDate_example = commit-IsUpToDate no_params waiting_page waiting_page-Reach

-- A form on the loaded page whose answer redirects to the list of servers.
abbrev servers_url : Url
servers_url = record {
  origin = codes "https://panel";
  location = record { pathname = codes "/servers"; search = [] };
  href = codes "https://panel/servers";
}

abbrev redirected : Response
redirected = record {
  status = 200;
  status_text = codes "OK";
  text = some [];
  redirected = true;
  url = some servers_url;
}

mutation_tests :
    ((handle_mutation_response no_params domains_at redirected
        loaded_page).0.location_state.pathname
      ≡ codes "/servers")
    × ((handle_mutation_response no_params domains_at
          (record redirected { status = 500; text = none })
          loaded_page).1
        ≡ some (codes "500 OK"))
    × (normalize_path (normalize_path (codes "/servers")) ≡ normalize_path (codes "/servers"))
    × (loaded_page.origin ≡ codes "https://panel")
unfolding running
mutation_tests = (refl, refl, refl, refl)

same_origin : codes "https://panel" ≡ loaded_page.origin
unfolding running
same_origin = refl

mutation_drops_cache_example :
    cached_page no_params
      (handle_mutation_response no_params loaded_page.location_state redirected loaded_page).0
    ≡ none
mutation_drops_cache_example =
    mutation_drops_cache no_params loaded_page redirected refl (same_origin, mutation_tests.2)

abbrev link : Anchor
link = record { spa_ignore = none; download = false; target = []; url = servers_url }

abbrev left_click : Click
left_click = record {
  default_prevented = false;
  button = 0;
  meta_key = false;
  ctrl_key = false;
  shift_key = false;
  alt_key = false;
  anchor = some link;
}

link-IsTaken : IsTaken no_params left_click link loaded_page
unfolding running
link-IsTaken = record {
  unhandled = refl;
  primary = refl;
  no_meta = refl;
  no_ctrl = refl;
  no_shift = refl;
  no_alt = refl;
  anchor = refl;
  heeded = λ e. cc;
  shown = refl;
  target = inl refl;
  origin = refl;
  known = refl;
}

handle_click_cases_example :
    (((a : Anchor) × IsTaken no_params left_click a loaded_page → ⊥)
      × (handle_click no_params left_click loaded_page ≡ (loaded_page, false)))
    ⊎ ((a : Anchor) × IsTaken no_params left_click a loaded_page
        × (handle_click no_params left_click loaded_page
            ≡ (navigate no_params a.url.location no_options loaded_page, true)))
handle_click_cases_example = handle_click_cases no_params left_click loaded_page

-- A form with a chosen file and a named submitter.
abbrev upload : Form
upload = record {
  default_prevented = false;
  is_form = true;
  spa_ignore = none;
  method = codes "post";
  url = servers_url;
  query = [];
  entries = (codes "host", text (codes "a")) ∷ (codes "zone", file (codes "a.zone")) ∷ [];
  submitter = some (codes "save", codes "1");
}

upload_test :
    form_body upload
    ≡ multipart (
        (codes "host", text (codes "a"))
        ∷ (codes "zone", file (codes "a.zone"))
        ∷ (codes "save", text (codes "1"))
        ∷ [])
unfolding form_body with_submitter has_binary_field text_entries ◌===◌
upload_test = refl

form_body_lem_example :
    (CarriesText (form_body upload) (codes "save") (codes "1")
      ↔ HasText upload (codes "save") (codes "1"))
    × (In (codes "save", file (codes "1")) (with_submitter upload.submitter upload.entries)
        → codes "1" ≢ []
        → form_body upload ≡ multipart (with_submitter upload.submitter upload.entries))
form_body_lem_example = form_body_lem upload (codes "save") (codes "1")
