-- ===== src/Spa/Steps.antt =====
-- The runs of the page: what the user, the browser and the server do to the state of `App`, in any
-- order, and the renders between them.
use go_resolver.Base.{Text, Option, none, some, In, ℕ, Lacks}
use go_resolver.Base.Url.{UrlParams}
use go_resolver.Route.Keys.{IsSearch}
use go_resolver.Spa.{
  Location, Url, Options, Response, Spa, initial, navigate, navigate_url, refresh,
  handle_mutation_response,
}
use go_resolver.Spa.Loading.{Result, commit, settle}
use go_resolver.Spa.Events.{Click, Anchor, handle_click, handle_pop_state}

-- What a browser gives as the path and the search of a URL.
pub record IsLocation (l : Location) : Type 0 where
  pub pathname : Lacks b'?' l.pathname
  pub search : IsSearch l.search

-- Each optional part of an event that is a URL has such a location.
abbrev pub OptionalUrl : Option Url → Type 0
OptionalUrl none = Unit
OptionalUrl (some url) = IsLocation url.location

abbrev pub OptionalAnchor : Option Anchor → Type 0
OptionalAnchor none = Unit
OptionalAnchor (some a) = IsLocation a.url.location

pub data Step (u : UrlParams) (s : Spa) : Spa → Type 0 where
  navigates : (l : Location) (o : Options) → IsLocation l → Step u s (navigate u l o s)
  navigates_url :
      (url : Url) (o : Options) → IsLocation url.location → Step u s (navigate_url u url o s)
  clicks : (c : Click) → OptionalAnchor c.anchor → Step u s (handle_click u c s).0
  pops : (l : Location) → IsLocation l → Step u s (handle_pop_state l s)
  refreshes : (rendered : Location) → Step u s (refresh u rendered s)
  mutates :
      (rendered : Location) (r : Response)
      → OptionalUrl r.url
      → Step u s (handle_mutation_response u rendered r s).0
  renders : Step u s (commit u s)
  settles :
      (n : ℕ) (name : Text) (result : Result)
      → In (n, name) s.outstanding
      → Step u s (settle n name result s)

-- The states that a page opened at a location can reach.
pub data Reach (u : UrlParams) : Spa → Type 0 where
  opened : (origin : Text) (l : Location) → IsLocation l → Reach u (initial u origin l)
  next : {s t : Spa} → Reach u s → Step u s t → Reach u t
