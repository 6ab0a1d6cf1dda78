-- ===== src/Spa/Invariant/Rendering.antt =====
-- A render keeps the invariant: if the load effect runs, it cancels the subscription of the last run,
-- and shows, takes from the cache or requests the page of the new route.
use go_resolver.Base.{
  Text, ◌≡◌, inl, inr, refl, true, false, Option-cases, none, some, List, [], ◌∷◌, ◌++◌, ℕ, Option,
  ◌+◌, Bindings-insert, Bindings-lookup, if_ind, sym, subst, lookup, length,
}
use go_resolver.Base.Url.{UrlParams}
use go_resolver.Route.{Page, Route}
use go_resolver.Route.Outcomes.{Source, from_api, from_page, from_error, resolve_route-Source}
use go_resolver.Spa.{Spa, Deps, PageState, route_at}
use go_resolver.Spa.Loading.{
  same_deps, deps_now, cancel, load_page, run_effect, commit, request_key, subscribe, request_page,
}
use go_resolver.Spa.Requests.{Asked, Serves, request_key_injective, Asked-concat}
use go_resolver.Spa.Invariant.Carried.{
  cancel-IsCurrent, cancel-Asked, All-Asked-append, Bindings-Answers-append, Bindings-Named-append,
}
use go_resolver.Spa.Invariant.{IsCoherent, IsShown, RunsFor, Shows}

-- A route without an error and a page of its own has an API path.
pub no_api : {r : Route} → Source r → r.error ≡ none → r.static_page ≡ none → r.api_path ≡ none → ⊥
no_api (from_api path a b c) fine fetched never = absurd (cc)
no_api (from_page page a b c) fine fetched never = absurd (cc)
no_api (from_error message a b c d) fine fetched never = absurd (cc)

module _ (u : UrlParams) where
  busy-IsShown :
      (requests : List Text) (ran : Option Deps) (state : PageState)
      → state.loading ≡ true
      → IsShown u requests ran state
  busy-IsShown requests none state busy = tt
  busy-IsShown requests (some d) state busy = λ shown live _ _. absurd (cc)

  subscribe-IsCoherent :
      (key : Text) (n : ℕ) (s : Spa)
      → Asked u s.requests key n
      → RunsFor u s.ran_with key
      → IsCoherent u s
      → IsCoherent u (subscribe key n s)
  subscribe-IsCoherent key n s asked runs h = record {
    here = h.here;
    location = h.location;
    ran = h.ran;
    cache = h.cache;
    pending = h.pending;
    asked = (asked, h.asked);
    current = (record { run_eq = λ _. refl; runs_for = λ _. runs }, h.current);
    shown = h.shown;
  }

  -- `load_page` behind `setState(… loading: true)`.
  load_page-IsCoherent :
      (key path : Text) (s : Spa)
      → Serves u key path
      → RunsFor u s.ran_with key
      → s.state.loading ≡ true
      → IsCoherent u s
      → IsCoherent u (load_page key path s)
  unfolding load_page
  load_page-IsCoherent key path s serves runs busy h =
      let name = request_key key s.refresh_token in
      elim (Option-cases (lookup name s.pending)) [
        | inr (n, found) ↦
            let named = Bindings-lookup _ name s.pending h.pending found in
            let key_eq =
              request_key_injective named.key key named.token s.refresh_token (sym named.name_eq) in
            rw (found, load_page)
              (subscribe-IsCoherent key n s (subst (λ k. Asked u s.requests k n) key_eq named.asked)
                runs h)
        | inl missing ↦
            let requests = s.requests ++ path ∷ [] in
            let asked = Asked-concat u s.requests path key serves in
            rw (missing, load_page)
              (subscribe-IsCoherent key (length s.requests) (request_page path name s) asked runs
                (record {
                  here = h.here;
                  location = h.location;
                  ran = h.ran;
                  cache = Bindings-Answers-append u s.requests path s.page_cache h.cache;
                  pending =
                      Bindings-insert _ name (length s.requests) s.pending
                        (Bindings-Named-append u s.requests path s.pending h.pending)
                        (record {
                          key = key;
                          token = s.refresh_token;
                          name_eq = refl;
                          asked = asked;
                        });
                  asked = All-Asked-append u s.requests path s.subscriptions h.asked;
                  current = h.current;
                  shown = busy-IsShown requests s.ran_with s.state busy;
                }))
      ]

  -- The state with which the effect's body begins.
  abbrev pub begun : Spa → Spa
  begun s = record s {
    subscriptions = cancel s.run s.subscriptions;
    run = s.run + 1;
    ran_with = some (deps_now u s);
  }

  begun-IsCoherent :
      (s : Spa) (state : PageState)
      → IsCoherent u s
      → IsShown u s.requests (some (deps_now u s)) state
      → IsCoherent u (record (begun s) { state = state })
  begun-IsCoherent s state h shown = record {
    here = h.here;
    location = h.location;
    ran = h.location;
    cache = h.cache;
    pending = h.pending;
    asked = cancel-Asked u s.requests s.run s.subscriptions h.asked;
    current =
        cancel-IsCurrent u s.ran_with (some (deps_now u s)) s.run (s.run + 1) s.subscriptions
          h.current;
    shown = shown;
  }

  -- A page that is right for the location may be shown.
  Shows-IsShown :
      (s : Spa) (page : Page)
      → Shows u s.requests (route_at u s.location_state) page
      → IsShown u s.requests
          (some (deps_now u s))
          (record { page = some page; error = none; loading = false })
  Shows-IsShown s page h = λ shown _ _ same.
      let page_eq : page ≡ shown = cc in
      subst (Shows u s.requests (route_at u s.location_state)) page_eq h

  run_effect-IsCoherent :
      (s : Spa)
      → IsCoherent u s
      → IsCoherent u (run_effect u (route_at u s.location_state) (begun s))
  unfolding run_effect
  run_effect-IsCoherent s h =
      let r = route_at u s.location_state in
      elim (Option-cases r.error) [
        | inr (message, err) ↦
            rw (err, run_effect) (begun-IsCoherent s _ h (λ shown _ failed _. absurd (cc)))
        | inl fine ↦ elim (Option-cases r.static_page) [
          | inr (page, own) ↦
              rw (fine, own, run_effect) (begun-IsCoherent s _ h (Shows-IsShown s page (inl own)))
          | inl fetched ↦ elim (Option-cases (lookup r.key s.page_cache)) [
            | inr (page, cached) ↦
                rw (fine, fetched, cached, run_effect)
                  (begun-IsCoherent s _ h (
                    Shows-IsShown s page
                      (inr (Bindings-lookup _ r.key s.page_cache h.cache cached))))
            | inl absent ↦ elim (Option-cases r.api_path) [
              | inl never ↦ absurd (no_api (resolve_route-Source u _ _) fine fetched never)
              | inr (path, api) ↦
                  rw (fine, fetched, absent, api, run_effect)
                    (load_page-IsCoherent r.key path _
                      (record {
                        location = s.location_state;
                        valid = h.location;
                        key_eq = refl;
                        path = api;
                      })
                      refl refl
                      (begun-IsCoherent s _ h (
                        busy-IsShown s.requests (some (deps_now u s))
                          (record { page = s.state.page; error = none; loading = true }) refl)))
            ]
          ]
        ]
      ]

  pub commit-IsCoherent : (s : Spa) → IsCoherent u s → IsCoherent u (commit u s)
  unfolding commit
  commit-IsCoherent s h =
      if_ind (IsCoherent u) (same_deps u s.ran_with (deps_now u s)) s
        (run_effect u (route_at u s.location_state) (begun s)) (λ _. h)
        (λ _. run_effect-IsCoherent s h)
