-- ===== src/Spa/Shown.antt =====
-- The page that `App` shows once it has loaded is the page of the route that it is at.
use go_resolver.Base.{
  Text, ◌≡◌, inl, inr, refl, subst, true, false, none, some, Option, List, get_elem?, ===_iff, ℕ,
  arith,
}
use go_resolver.Base.Url.{UrlParams}
use go_resolver.Route.{Page, Route, response}
use go_resolver.Spa.{Location, Spa, Deps, route_at}
use go_resolver.Spa.Loading.{same_deps, deps_now}
use go_resolver.Spa.Steps.{IsLocation, Reach}
use go_resolver.Spa.Requests.{Answers-api_path, route_at-key_injective}
use go_resolver.Spa.Invariant.{IsCoherent, IsShown, RanAt, Shows}
use go_resolver.Spa.Invariant.Reachable.{Reach-IsCoherent}

-- The page that belongs to a route: its own, or the body of the answer to a request for its API path.
pub data Belongs (requests : List Text) (r : Route) (page : Page) : Type 0 where
  own : r.static_page ≡ some page → Belongs requests r page
  fetched :
      (n : ℕ)
      → page.content ≡ response n
      → get_elem? requests n ≡ r.api_path
      → Belongs requests r page

module _ (u : UrlParams) where
  -- The load effect has run for the route of the current location.
  abbrev pub IsUpToDate : Spa → Type 0
  IsUpToDate s = same_deps u s.ran_with (deps_now u s) ≡ true

  same_deps-route :
      (old now : Deps)
      → same_deps u (some old) now ≡ true
      → (route_at u old.location).key ≡ (route_at u now.location).key
  unfolding same_deps
  same_deps-route old now h =
      ground (arith, ===_iff (route_at u old.location).key (route_at u now.location).key)

  Shows-Belongs :
      {requests : List Text} {l : Location} {page : Page}
      → IsLocation l
      → Shows u requests (route_at u l) page
      → Belongs requests (route_at u l) page
  Shows-Belongs hl (inl e) = own e
  Shows-Belongs hl (inr a) = fetched a.number a.content (Answers-api_path u hl a)

  shown_of_ran :
      (s : Spa) (ran : Option Deps)
      → s.ran_with ≡ ran
      → IsCoherent u s
      → same_deps u ran (deps_now u s) ≡ true
      → (page : Page) → s.state.loading ≡ false
      → s.state.error ≡ none
      → s.state.page ≡ some page
      → Belongs s.requests (route_at u s.location_state) page
  unfolding same_deps
  shown_of_ran s none e h fresh page = absurd (cc)
  shown_of_ran s (some d) e h fresh page = λ loaded fine shown.
      let valid : IsLocation d.location = subst (RanAt u) e h.ran in
      let is_shown = subst (λ o. IsShown u s.requests o s.state) e h.shown in
      subst (λ r. Belongs s.requests r page)
        (route_at-key_injective u valid h.location (same_deps-route d (deps_now u s) fresh))
        (Shows-Belongs valid (is_shown page loaded fine shown))

  -- In every state that the page can reach, once the load effect has run for the current location: a
  -- page shown without a loading mark and an error is the current route's own page, or the body of
  -- the answer to a request that was made for the current route's API path.
  pub shown_page-Belongs :
      (s : Spa)
      → Reach u s
      → IsUpToDate s
      → (page : Page) → s.state.loading ≡ false
      → s.state.error ≡ none
      → s.state.page ≡ some page
      → Belongs s.requests (route_at u s.location_state) page
  shown_page-Belongs s r fresh page =
      shown_of_ran s s.ran_with refl (Reach-IsCoherent u r) fresh page
