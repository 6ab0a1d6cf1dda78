-- ===== src/Route.antt =====
-- web/frontend/src/app.tsx, the pure part: `normalizePath`, `activeForView`, `sameLocation`,
-- `buildLoginPage` and `resolveRoute`. A route is a record with the source's optional fields; an
-- error is its message.
pub mod Patterns
pub mod Normal
pub mod Keys
pub mod Outcomes
pub mod Menu
mod Tests
use go_resolver.Base.{
  Text, Bool, true, false, not, ◌&&◌, ◌||◌, Option, none, some, [], ◌∷◌, ◌++◌, codes, ◌===◌,
  if◌then◌else◌, ◌==◌, or_text, truthy, is_digit, strip_prefix, ℕ, List,
}
use go_resolver.Base.Url.{UrlParams, get_param}

-- What a page object carries besides `Active` and `View`: the query's message for the login page,
-- or the JSON body with which a request, named by its number, was answered.
pub data Content : Type 0 where
  empty : Content
  login_error : Text → Content
  response : ℕ → Content

pub record Page : Type 0 where
  pub active : Text
  pub view : Text
  pub content : Content

pub record Route : Type 0 where
  pub key : Text
  pub view : Text
  pub api_path : Option Text
  pub static_page : Option Page
  pub error : Option Text

-- `s.endsWith("/")`
unfoldable pub ends_with_slash : Text → Bool
ends_with_slash [] = false
ends_with_slash (c ∷ []) = c == b'/'
ends_with_slash (c ∷ d ∷ s) = ends_with_slash (d ∷ s)

-- `s.slice(0, -1)`
unfoldable pub drop_last : Text → Text
drop_last [] = []
drop_last (c ∷ []) = []
drop_last (c ∷ d ∷ s) = c ∷ drop_last (d ∷ s)

unfoldable pub normalize_path : Text → Text
unfolding ends_with_slash drop_last
normalize_path pathname =
    if not (truthy pathname) || (pathname === codes "/")
    then codes "/"
    else if ends_with_slash pathname
    then drop_last pathname
    else pathname

unfoldable pub active_for_view : Text → Text
active_for_view view =
    if view === codes "records"
    then codes "domains"
    else if view === codes "serverconfiguration"
    then codes "servers"
    else view

-- `url` is given by its path and its search.
unfoldable pub same_location : Text → Text → Text → Text → Bool
same_location url_path url_search pathname search =
    (normalize_path url_path === normalize_path pathname) && (url_search === search)

-- The digits with which a text begins, and the rest.
unfoldable pub span_digits : Text → Text × Text
span_digits [] = ([], [])
span_digits (c ∷ s) =
    let rest = span_digits s in if is_digit c then (c ∷ rest.0, rest.1) else ([], c ∷ s)

match_tail : Text → Text × Text → Option Text
match_tail suffix ([], rest) = none
match_tail suffix (d ∷ ds, rest) = if rest === suffix then some (d ∷ ds) else none

-- `s.match(/^prefix(\d+)suffix$/)?.[1]`
unfoldable pub match_digits : Text → Text → Text → Option Text
unfolding match_tail span_digits strip_prefix
match_digits prefix suffix s = elim (strip_prefix prefix s) [
  | none ↦ none
  | some rest ↦ match_tail suffix (span_digits rest)
]

-- The object literals of `resolveRoute`, by the field that serves the page.
abbrev pub api_route : Text → Text → Text → Route
api_route key view path = record {
  key = key;
  view = view;
  api_path = some path;
  static_page = none;
  error = none;
}

abbrev pub static_route : Text → Text → Page → Route
static_route key view page = record {
  key = key;
  view = view;
  api_path = none;
  static_page = some page;
  error = none;
}

abbrev pub error_route : Text → Text → Text → Route
error_route key view message = record {
  key = key;
  view = view;
  api_path = none;
  static_page = none;
  error = some message;
}

abbrev pub analytics_page : Page
analytics_page = record { active = codes "analytics"; view = codes "analytics"; content = empty }

module _ (u : UrlParams) where
  unfoldable pub build_login_page : Text → Page
  build_login_page search = record {
    active = codes "login";
    view = codes "login";
    content = elim (get_param u search (codes "error")) [
      | none ↦ login_error []
      | some message ↦ login_error message
    ];
  }

  -- The two routes with a number in the path, and the unknown ones.
  unfoldable pub resolve_numbered : Text → Text → Route
  resolve_numbered path search = elim (match_digits (codes "/domains/") (codes "/records") path) [
    | some id ↦
        api_route path (codes "records") (codes "/api/pages/domains/" ++ id ++ codes "/records")
    | none ↦ elim (match_digits (codes "/servers/") (codes "/server_configuration") path) [
      | some id ↦
          api_route (path ++ search) (codes "serverconfiguration")
            (codes "/api/pages/servers/" ++ id ++ codes "/server_configuration")
      | none ↦ error_route (path ++ search) (codes "unknown") (codes "Unsupported route: " ++ path)
    ]
  ]

  -- `resolveRoute` behind the call of `normalizePath`.
  unfoldable pub resolve_path : Text → Text → Route
  resolve_path path search =
      if path === codes "/login"
      then static_route (path ++ search) (codes "login") (build_login_page search)
      else if path === codes "/"
      then api_route path (codes "dashboard") (codes "/api/pages/dashboard")
      else if path === codes "/domains"
      then api_route path (codes "domains") (codes "/api/pages/domains")
      else if path === codes "/servers"
      then api_route path (codes "servers") (codes "/api/pages/servers")
      else if path === codes "/analytics"
      then static_route path (codes "analytics") analytics_page
      else if path === codes "/settings"
      then api_route (path ++ search) (codes "settings") (codes "/api/pages/settings" ++ search)
      else resolve_numbered path search

  unfoldable pub resolve_route : Text → Text → Route
  resolve_route pathname search = resolve_path (normalize_path pathname) search
