-- ===== src/Spa/Invariant.antt =====
-- What holds of `App` in every state: whatever is cached, pending or subscribed under a key was
-- requested for that key, and what is shown answers the route that was last rendered.
pub mod Carried
pub mod Settling
pub mod Rendering
pub mod Reachable
use go_resolver.Base.{
  Text, ◌≡◌, ◌⊎◌, Bool, true, false, Option, none, some, List, [], ◌∷◌, ℕ, ◌≤◌, All, Bindings,
}
use go_resolver.Base.Url.{UrlParams}
use go_resolver.Route.{Page, Route}
use go_resolver.Spa.{Location, PageState, Subscription, Deps, Spa, route_at}
use go_resolver.Spa.Loading.{request_key}
use go_resolver.Spa.Steps.{IsLocation}
use go_resolver.Spa.Requests.{Asked, Answers}

module _ (u : UrlParams) where
  -- The run of the effect was made for the route with this key.
  abbrev pub RunsFor : Option Deps → Text → Type 0
  RunsFor none key = ⊥
  RunsFor (some d) key = (route_at u d.location).key ≡ key

  -- The page is the route's own, or answers a request that was made for the route's key.
  abbrev pub Shows : List Text → Route → Page → Type 0
  Shows requests r page = (r.static_page ≡ some page) ⊎ Answers u requests r.key page

  abbrev pub RanAt : Option Deps → Type 0
  RanAt none = Unit
  RanAt (some d) = IsLocation d.location

  -- If the state shows a page without a loading mark or an error, it is the right one.
  abbrev pub IsShown : List Text → Option Deps → PageState → Type 0
  IsShown requests none state = Unit
  IsShown requests (some d) state =
      (page : Page)
      → state.loading ≡ false
      → state.error ≡ none
      → state.page ≡ some page
      → Shows requests (route_at u d.location) page

  -- A request's name comes from a key for which the request was made.
  pub record Named (requests : List Text) (name : Text) (n : ℕ) : Type 0 where
    pub key : Text
    pub token : ℕ
    pub name_eq : name ≡ request_key key token
    pub asked : Asked u requests key n

  -- A subscription of an older run is cancelled, and one of the current run is for its route.
  pub record IsCurrent (ran : Option Deps) (run : ℕ) (c : Subscription) : Type 0 where
    pub run_eq : c.cancelled ≡ false → c.run ≡ run
    pub runs_for : c.cancelled ≡ false → RunsFor ran c.key

  pub record IsCoherent (s : Spa) : Type 0 where
    pub here : IsLocation s.here
    pub location : IsLocation s.location_state
    pub ran : RanAt s.ran_with
    pub cache : Bindings (Answers u s.requests) s.page_cache
    pub pending : Bindings (Named s.requests) s.pending
    pub asked : All (λ c. Asked u s.requests c.key c.promise) s.subscriptions
    pub current : All (IsCurrent s.ran_with s.run) s.subscriptions
    pub shown : IsShown s.requests s.ran_with s.state
