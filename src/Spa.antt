-- ===== src/Spa.antt =====
-- web/frontend/src/app.tsx, the component `App`: its state and the callbacks that change it. What a
-- callback queues by its setters is applied at once; `commit` (Spa/Loading) is the render that
-- follows, with the load effect.
pub mod Loading
pub mod Events
pub mod Screen
pub mod Steps
pub mod Requests
pub mod Quiet
pub mod Invariant
pub mod Shown
pub mod Stable
pub mod Books
pub mod Waiting
pub mod Mutations
mod Tests
use go_resolver.Base.{
  Text, Bool, true, false, not, ◌&&◌, ◌||◌, Option, none, some, List, [], ◌∷◌, ◌++◌, codes, ◌===◌,
  if◌then◌else◌, ◌==◌, or_text, text_or_empty, ℕ, ◌+◌, ◌/◌, lookup, erase, decimal,
}
use go_resolver.Base.Url.{UrlParams}
use go_resolver.Route.{Page, Route, normalize_path, resolve_route, same_location}

pub record Location : Type 0 where
  pub pathname : Text
  pub search : Text

-- A parsed URL; `href` is `url.toString()`.
pub record Url : Type 0 where
  pub origin : Text
  pub location : Location
  pub href : Text

-- The options of `navigate` and `syncLocation`.
pub record Options : Type 0 where
  pub replace : Bool
  pub preserve_scroll : Bool
  pub refresh : Bool

abbrev pub no_options : Options
no_options = record { replace = false; preserve_scroll = false; refresh = false }

-- The React state `state`.
pub record PageState : Type 0 where
  pub page : Option Page
  pub error : Option Text
  pub loading : Bool

-- The callbacks that one run of the load effect leaves on a request: `run` numbers the effect's
-- runs, `promise` the requests, `key` is the closure's `route.key`.
pub record Subscription : Type 0 where
  pub run : ℕ
  pub promise : ℕ
  pub key : Text
  pub cancelled : Bool

-- The values on which the load effect depends, as of its last run.
pub record Deps : Type 0 where
  pub location : Location
  pub token : ℕ
  pub cached : Option Page

pub record Spa : Type 0 where
  pub origin : Text  -- `window.location.origin`
  pub here : Location  -- `window.location`
  pub history : List Location  -- the entries of the session history below the current one
  pub scrolls : ℕ  -- the calls of `window.scrollTo`
  pub assigned : List Text  -- the arguments of `window.location.assign`, the last one first
  pub location_state : Location
  pub page_cache : List (Text × Page)
  pub refresh_token : ℕ
  pub pending : List (Text × ℕ)  -- `pendingPageLoads.current`
  pub state : PageState
  pub ran_with : Option Deps
  pub run : ℕ
  pub subscriptions : List Subscription
  pub requests : List Text  -- the API path of each request that was made, by its number
  pub outstanding : List (ℕ × Text)  -- the requests not settled, each with its `requestKey`

abbrev pub path_of : Location → Text
path_of l = l.pathname ++ l.search

module _ (u : UrlParams) where
  -- The memo `route` of a location.
  abbrev pub route_at : Location → Route
  route_at l = resolve_route u l.pathname l.search

  -- The state of the first render, by `useState`.
  unfoldable pub initial_state : Route → PageState
  initial_state r = elim r.error [
    | some message ↦ record { page = none; error = some message; loading = false }
    | none ↦ elim r.static_page [
      | some page ↦ record { page = some page; error = none; loading = false }
      | none ↦ record { page = none; error = none; loading = true }
    ]
  ]

  unfoldable pub initial : Text → Location → Spa
  initial origin l = record {
    origin = origin;
    here = l;
    history = [];
    scrolls = 0;
    assigned = [];
    location_state = l;
    page_cache = [];
    refresh_token = 0;
    pending = [];
    state = initial_state (route_at l);
    ran_with = none;
    run = 0;
    subscriptions = [];
    requests = [];
    outstanding = [];
  }

  -- `window.history.pushState` and `replaceState` with the path of a location.
  abbrev push_state : Location → Spa → Spa
  push_state l s = record s { here = l; history = s.here ∷ s.history }

  abbrev replace_state : Location → Spa → Spa
  replace_state l s = record s { here = l }

  -- The history is touched only if the path differs from the browser's.
  move_window : Location → Options → Spa → Spa
  move_window l options s =
      if path_of l === path_of s.here
      then s
      else if options.replace
      then replace_state l s
      else push_state l s

  scroll_top : Options → Spa → Spa
  scroll_top options s = if options.preserve_scroll then s else record s { scrolls = s.scrolls + 1 }

  unfoldable pub sync_location : Location → Options → Spa → Spa
  unfolding move_window scroll_top
  sync_location l options s =
      scroll_top options (record (move_window l options s) { location_state = l })

  -- `setPageCache` without the key, and `setRefreshToken`.
  unfoldable pub refresh_key : Text → Spa → Spa
  refresh_key key s = record s {
    page_cache = erase key s.page_cache;
    refresh_token = s.refresh_token + 1;
  }

  stay : Location → Options → Spa → Spa
  stay target options s = if options.refresh then refresh_key (route_at target).key s else s

  abbrev pub normalized : Location → Location
  normalized l = record { pathname = normalize_path l.pathname; search = l.search }

  -- The normalised target is where the browser is.
  abbrev pub is_here : Location → Spa → Bool
  is_here l s =
      (normalize_path l.pathname === normalize_path s.here.pathname) && (l.search === s.here.search)

  unfoldable pub navigate : Location → Options → Spa → Spa
  unfolding stay
  navigate l options s =
      if is_here l s then stay (normalized l) options s else sync_location (normalized l) options s

  abbrev pub assign : Text → Spa → Spa
  assign href s = record s { assigned = href ∷ s.assigned }

  unfoldable pub navigate_url : Url → Options → Spa → Spa
  navigate_url url options s =
      if url.origin === s.origin then navigate url.location options s else assign url.href s

  -- `refresh`, as the render at the location `rendered` made it; no key is empty.
  unfoldable pub refresh : Location → Spa → Spa
  refresh rendered s = refresh_key (route_at rendered).key s

  unfoldable pub invalidate_route_cache : Location → Spa → Spa
  invalidate_route_cache l s = record s { page_cache = erase (route_at l).key s.page_cache }

-- The fields of a `Response` that the program reads: `text` is what `response.text()` gives, or
-- nothing if it rejects, and `url` is the parsed `response.url`, or nothing if that is empty.
pub record Response : Type 0 where
  pub status : ℕ
  pub status_text : Text
  pub text : Option Text
  pub redirected : Bool
  pub url : Option Url

-- `response.ok`
abbrev pub is_ok : Response → Bool
is_ok r = r.status / 100 == 2

module _ (u : UrlParams) where
  abbrev at_url : Url → Spa → Bool
  at_url url s =
      same_location url.location.pathname url.location.search s.here.pathname s.here.search

  redirect_to : Location → Url → Spa → Spa
  redirect_to rendered url s =
      if not (url.origin === s.origin)
      then assign u url.href s
      else if at_url url s
      then refresh u rendered s
      else navigate u url.location no_options (invalidate_route_cache u url.location s)

  -- Behind the tests of the status.
  after_mutation : Location → Response → Spa → Spa
  after_mutation rendered response s =
      if response.redirected
      then elim response.url [ some url ↦ redirect_to rendered url s | none ↦ refresh u rendered s ]
      else refresh u rendered s

  -- The message of the error for a response that is not ok.
  abbrev pub failure_message : Response → Text
  failure_message r =
      or_text (text_or_empty r.text) (decimal r.status ++ codes " " ++ r.status_text)

  -- `handleMutationResponse`, made by the render at `rendered`; the error that it throws, if any.
  unfoldable pub handle_mutation_response : Location → Response → Spa → Spa × Option Text
  unfolding redirect_to after_mutation
  handle_mutation_response rendered response s =
      if response.status == 401
      then (assign u (codes "/login") s, none)
      else if not (is_ok response)
      then (s, some (failure_message response))
      else (after_mutation rendered response s, none)
