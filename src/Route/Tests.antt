-- ===== src/Route/Tests.antt =====
-- Runs of the routing functions, and the theorems at concrete paths.
use go_resolver.Base.{◌≡◌, refl, arith, [], none, some, codes, ◌===◌}
use go_resolver.Base.Url.{UrlParams, get_param}
use go_resolver.Route.{
  login_error, normalize_path, active_for_view, same_location, match_digits, build_login_page,
  resolve_numbered, resolve_path, resolve_route, api_route,
}
use go_resolver.Route.Keys.{search, no_search, resolve_route-key_injective}
use go_resolver.Route.Outcomes.{records_path, records_api_path, resolve_route-records}
use go_resolver.Base.{◌∷◌, Digits}

-- A parser that finds the same entry in every text, which is enough for these runs.
abbrev one_param : UrlParams
one_param = record { parse = λ _. (codes "error", codes "bad") ∷ []; to_string = λ _. [] }

routing : Unit {0}
unfolding resolve_route resolve_path resolve_numbered match_digits normalize_path build_login_page
    get_param ◌===◌ same_location active_for_view
routing = tt

paths :
    (normalize_path (codes "/domains/") ≡ codes "/domains")
    × (normalize_path (codes "/") ≡ codes "/")
    × (normalize_path [] ≡ codes "/")
    × (normalize_path (codes "/a//") ≡ codes "/a/")
unfolding routing
paths = (refl, refl, refl, refl)

routes :
    ((resolve_route one_param (codes "/domains/42/records/") (codes "?x=1")).key
      ≡ codes "/domains/42/records")
    × ((resolve_route one_param (codes "/servers/7/server_configuration") (codes "?tab=2")).key
        ≡ codes "/servers/7/server_configuration?tab=2")
    × ((resolve_route one_param (codes "/domains/x/records") []).view ≡ codes "unknown")
    × ((resolve_route one_param (codes "/settings") (codes "?saved=1")).api_path
        ≡ some (codes "/api/pages/settings?saved=1"))
    × ((build_login_page one_param (codes "?error=bad")).content ≡ login_error (codes "bad"))
unfolding routing
routes = (refl, refl, refl, refl, refl)

forty_two : Digits (codes "42")
forty_two = (refl, (refl, tt))

resolve_route-records_example :
    resolve_route one_param (records_path (codes "42")) (codes "?x=1")
    ≡ api_route (records_path (codes "42")) (codes "records") (records_api_path (codes "42"))
resolve_route-records_example =
    resolve_route-records one_param (codes "42") (codes "?x=1") forty_two (λ e. cc)

records_view : (resolve_route one_param (codes "/domains/42/records/") []).view ≡ codes "records"
unfolding routing
records_view = refl

no_error : (resolve_route one_param (codes "/domains/42/records") []).error ≡ none
unfolding routing
no_error = refl

same_key :
    (resolve_route one_param (codes "/domains") []).key
    ≡ (resolve_route one_param (codes "/domains/") (codes "?page=2")).key
unfolding routing
same_key = refl

resolve_route-key_injective_example :
    resolve_route one_param (codes "/domains") []
    ≡ resolve_route one_param (codes "/domains/") (codes "?page=2")
resolve_route-key_injective_example =
    resolve_route-key_injective one_param (codes "/domains") (codes "/domains/") []
      (codes "?page=2") (omega arith) (omega arith) no_search (search (codes "page=2")) same_key
