-- ===== src/Route/Outcomes.antt =====
-- What `resolveRoute` returns: one of nine outcomes, and exactly one source of the page.
use go_resolver.Base.{
  Text, ◌≡◌, ◌≢◌, refl, sym, ap, ◌∙◌, arith, false, [], ◌++◌, codes, ◌===◌, ===_iff, ===_apart,
  Digits, some, none, if_ind, Option_ind,
}
use go_resolver.Base.Url.{UrlParams}
use go_resolver.Route.{
  Route, Page, match_digits, resolve_numbered, resolve_path, resolve_route, normalize_path,
  ends_with_slash, build_login_page, api_route, static_route, error_route, analytics_page,
}
use go_resolver.Route.Normal.{normalize_path_fixed, ends_with_slash-append_cons}
use go_resolver.Route.Patterns.{match_digits_iff}

-- The outcomes of `resolveRoute` for a normalised path, each with the paths that lead to it.
pub data Resolved (u : UrlParams) (path s : Text) (r : Route) : Type 0 where
  login :
      path ≡ codes "/login"
      → r ≡ static_route (path ++ s) (codes "login") (build_login_page u s)
      → Resolved u path s r
  dashboard :
      path ≡ codes "/"
      → r ≡ api_route path (codes "dashboard") (codes "/api/pages/dashboard")
      → Resolved u path s r
  domains :
      path ≡ codes "/domains"
      → r ≡ api_route path (codes "domains") (codes "/api/pages/domains")
      → Resolved u path s r
  servers :
      path ≡ codes "/servers"
      → r ≡ api_route path (codes "servers") (codes "/api/pages/servers")
      → Resolved u path s r
  analytics :
      path ≡ codes "/analytics"
      → r ≡ static_route path (codes "analytics") analytics_page
      → Resolved u path s r
  settings :
      path ≡ codes "/settings"
      → r ≡ api_route (path ++ s) (codes "settings") (codes "/api/pages/settings" ++ s)
      → Resolved u path s r
  records :
      (id : Text)
      → Digits id
      → id ≢ []
      → path ≡ codes "/domains/" ++ (id ++ codes "/records")
      → r ≡ api_route path (codes "records") (codes "/api/pages/domains/" ++ id ++ codes "/records")
      → Resolved u path s r
  serverconfiguration :
      (id : Text)
      → Digits id
      → id ≢ []
      → path ≡ codes "/servers/" ++ (id ++ codes "/server_configuration")
      → r
        ≡ api_route
            (path ++ s)
            (codes "serverconfiguration")
            (codes "/api/pages/servers/" ++ id ++ codes "/server_configuration")
      → Resolved u path s r
  unknown :
      r ≡ error_route (path ++ s) (codes "unknown") (codes "Unsupported route: " ++ path)
      → Resolved u path s r

module _ (u : UrlParams) where
  resolve_numbered-Resolved : (path s : Text) → Resolved u path s (resolve_numbered u path s)
  unfolding resolve_numbered
  resolve_numbered-Resolved path s =
      Option_ind (Resolved u path s) (match_digits (codes "/domains/") (codes "/records") path) _ _
        (λ _.
          Option_ind (Resolved u path s)
            (match_digits (codes "/servers/") (codes "/server_configuration") path) _ _
            (λ _. unknown refl)
            (λ id found.
              let (shape, digits, full) =
                (match_digits_iff (codes "/servers/") b'/' (codes "server_configuration") path id
                    refl).0
                  found in
              serverconfiguration id digits full shape refl))
        (λ id found.
          let (shape, digits, full) =
            (match_digits_iff (codes "/domains/") b'/' (codes "records") path id refl).0 found in
          records id digits full shape refl)

  resolve_path-Resolved : (path s : Text) → Resolved u path s (resolve_path u path s)
  unfolding resolve_path
  resolve_path-Resolved path s =
      let P = Resolved u path s in
      if_ind P _ _ _ (λ e. login ((===_iff path _).0 e) refl)
        λ _.
          if_ind P _ _ _ (λ e. dashboard ((===_iff path _).0 e) refl)
            λ _.
              if_ind P _ _ _ (λ e. domains ((===_iff path _).0 e) refl)
                λ _.
                  if_ind P _ _ _ (λ e. servers ((===_iff path _).0 e) refl)
                    λ _.
                      if_ind P _ _ _ (λ e. analytics ((===_iff path _).0 e) refl)
                        λ _.
                          if_ind P _ _ _ (λ e. settings ((===_iff path _).0 e) refl)
                            λ _. resolve_numbered-Resolved path s

  -- Whatever the path, the route is one of the nine outcomes.
  pub resolve_route-Resolved : (p s : Text) → Resolved u (normalize_path p) s (resolve_route u p s)
  unfolding resolve_route
  resolve_route-Resolved p s = resolve_path-Resolved (normalize_path p) s

-- Exactly one of a route's three optional fields is set, and an error only for an unknown view.
pub data Source (r : Route) : Type 0 where
  from_api :
      (path : Text) → r.api_path ≡ some path → r.static_page ≡ none → r.error ≡ none → Source r
  from_page :
      (page : Page) → r.api_path ≡ none → r.static_page ≡ some page → r.error ≡ none → Source r
  from_error :
      (message : Text)
      → r.api_path ≡ none
      → r.static_page ≡ none
      → r.error ≡ some message
      → r.view ≡ codes "unknown"
      → Source r

module _ (u : UrlParams) where
  Resolved-Source : (path s : Text) (r : Route) → Resolved u path s r → Source r
  Resolved-Source path s r (login _ e) = rw e (from_page _ refl refl refl)
  Resolved-Source path s r (dashboard _ e) = rw e (from_api _ refl refl refl)
  Resolved-Source path s r (domains _ e) = rw e (from_api _ refl refl refl)
  Resolved-Source path s r (servers _ e) = rw e (from_api _ refl refl refl)
  Resolved-Source path s r (analytics _ e) = rw e (from_page _ refl refl refl)
  Resolved-Source path s r (settings _ e) = rw e (from_api _ refl refl refl)
  Resolved-Source path s r (records _ _ _ _ e) = rw e (from_api _ refl refl refl)
  Resolved-Source path s r (serverconfiguration _ _ _ _ e) = rw e (from_api _ refl refl refl)
  Resolved-Source path s r (unknown e) = rw e (from_error _ refl refl refl refl)

  -- A route has an API path, or a page of its own, or an error, and never two of these; it has an
  -- error only if its view is "unknown".
  pub resolve_route-Source : (p s : Text) → Source (resolve_route u p s)
  resolve_route-Source p s =
      Resolved-Source (normalize_path p) s (resolve_route u p s) (resolve_route-Resolved u p s)

-- The page of a domain's records, and the API path that serves it.
abbrev pub records_path : Text → Text
records_path id = codes "/domains/" ++ (id ++ codes "/records")

abbrev pub records_api_path : Text → Text
records_api_path id = codes "/api/pages/domains/" ++ id ++ codes "/records"

records_path-normal : (id : Text) → normalize_path (records_path id) ≡ records_path id
unfolding ends_with_slash
records_path-normal id =
    normalize_path_fixed b'/' (codes "domains/" ++ (id ++ codes "/records"))
      (ends_with_slash-append_cons (codes "/domains/" ++ id) b'/' (codes "records"))

other_view : {r t : Route} {view : Text} → r ≡ t → (t.view === view) ≡ false → r.view ≢ view
other_view e apart h = ===_apart apart (ap (λ (x : Route). x.view) (sym e) ∙ h)

module _ (u : UrlParams) where
  resolve_path-records :
      (id s : Text)
      → Digits id
      → id ≢ []
      → resolve_path u (records_path id) s
        ≡ api_route (records_path id) (codes "records") (records_api_path id)
  unfolding resolve_path resolve_numbered
  resolve_path-records id s digits full =
      let path = records_path id in
      ground (
        arith,
        ===_iff path (codes "/login"),
        ===_iff path (codes "/"),
        ===_iff path (codes "/domains"),
        ===_iff path (codes "/servers"),
        ===_iff path (codes "/analytics"),
        ===_iff path (codes "/settings"),
        (match_digits_iff (codes "/domains/") b'/' (codes "records") path id refl).1
            (refl, digits, full),
      )

  Resolved-records :
      (path s : Text) (r : Route)
      → Resolved u path s r
      → r.view ≡ codes "records"
      → (id : Text) × Digits id
        × (id ≢ [])
        × (path ≡ records_path id)
        × (r.api_path ≡ some (records_api_path id))
  unfolding ◌===◌
  Resolved-records path s r (records id digits full shape e) h =
      (id, digits, full, shape, ap (λ (t : Route). t.api_path) e)
  Resolved-records path s r (login _ e) h = absurd (other_view e refl h)
  Resolved-records path s r (dashboard _ e) h = absurd (other_view e refl h)
  Resolved-records path s r (domains _ e) h = absurd (other_view e refl h)
  Resolved-records path s r (servers _ e) h = absurd (other_view e refl h)
  Resolved-records path s r (analytics _ e) h = absurd (other_view e refl h)
  Resolved-records path s r (settings _ e) h = absurd (other_view e refl h)
  Resolved-records path s r (serverconfiguration _ _ _ _ e) h = absurd (other_view e refl h)
  Resolved-records path s r (unknown e) h = absurd (other_view e refl h)

  -- A path made of "/domains/", digits and "/records" is served by the API of that domain's
  -- records, whatever the search, and the search is not part of its key.
  pub resolve_route-records :
      (id s : Text)
      → Digits id
      → id ≢ []
      → resolve_route u (records_path id) s
        ≡ api_route (records_path id) (codes "records") (records_api_path id)
  unfolding resolve_route
  resolve_route-records id s digits full =
      rw (records_path-normal id) (resolve_path-records id s digits full)

  -- If the view of a route is "records", its normalised path is that of the records of a domain, which
  -- digits name, and it is served by the API of that domain's records.
  resolve_route-records_inv :
      (p s : Text)
      → (resolve_route u p s).view ≡ codes "records"
      → (id : Text) × Digits id
        × (id ≢ [])
        × (normalize_path p ≡ records_path id)
        × ((resolve_route u p s).api_path ≡ some (records_api_path id))
  resolve_route-records_inv p s h =
      Resolved-records (normalize_path p) s (resolve_route u p s) (resolve_route-Resolved u p s) h
