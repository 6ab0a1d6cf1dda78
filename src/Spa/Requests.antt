-- ===== src/Spa/Requests.antt =====
-- The names of page requests, and which pages answer which route.
use go_resolver.Base.{
  Text, ◌≡◌, sym, ap, ◌∙◌, ◌++◌, ◌∷◌, [], List, ℕ, some, codes, decimal, decimal-Lacks,
  append_cut_last, append_assoc, get_elem?, get_elem?-append_left, get_elem?-concat, length,
}
use go_resolver.Base.Url.{UrlParams}
use go_resolver.Route.{Page, Route, response}
use go_resolver.Route.Keys.{resolve_route-key_injective}
use go_resolver.Spa.{Location, route_at}
use go_resolver.Spa.Loading.{request_key}
use go_resolver.Spa.Steps.{IsLocation}

-- The name of a request determines the route's key, whatever the refresh tokens.
pub request_key_injective : (k j : Text) (t v : ℕ) → request_key k t ≡ request_key j v → k ≡ j
unfolding request_key
request_key_injective k j t v e =
    (append_cut_last b':' k j (decimal t) (decimal v) (decimal-Lacks t) (decimal-Lacks v)
      (sym (append_assoc k (codes ":") (decimal t)) ∙ e ∙ append_assoc j (codes ":") (decimal v))).0

module _ (u : UrlParams) where
  -- Some route with this key is served by this API path.
  pub record Serves (key url : Text) : Type 0 where
    pub location : Location
    pub valid : IsLocation location
    pub key_eq : (route_at u location).key ≡ key
    pub path : (route_at u location).api_path ≡ some url

  -- The request of this number was made for the key.
  pub record Asked (requests : List Text) (key : Text) (n : ℕ) : Type 0 where
    pub url : Text
    pub made : get_elem? requests n ≡ some url
    pub serves : Serves key url

  -- The page is the answer to a request that was made for the key.
  pub record Answers (requests : List Text) (key : Text) (page : Page) : Type 0 where
    pub number : ℕ
    pub content : page.content ≡ response number
    pub asked : Asked requests key number

  pub Asked-append :
      (requests : List Text) (path key : Text) (n : ℕ)
      → Asked requests key n
      → Asked (requests ++ path ∷ []) key n
  Asked-append requests path key n a = record {
    url = a.url;
    made = get_elem?-append_left requests (path ∷ []) n a.made;
    serves = a.serves;
  }

  pub Asked-concat :
      (requests : List Text) (path key : Text)
      → Serves key path
      → Asked (requests ++ path ∷ []) key (length requests)
  Asked-concat requests path key h = record {
    url = path;
    made = get_elem?-concat requests path;
    serves = h;
  }

  pub Answers-append :
      (requests : List Text) (path key : Text) (page : Page)
      → Answers requests key page
      → Answers (requests ++ path ∷ []) key page
  Answers-append requests path key page a = record {
    number = a.number;
    content = a.content;
    asked = Asked-append requests path key a.number a.asked;
  }

  -- The routes of two locations with one key are one route.
  pub route_at-key_injective :
      {l m : Location}
      → IsLocation l
      → IsLocation m
      → (route_at u l).key ≡ (route_at u m).key
      → route_at u l ≡ route_at u m
  route_at-key_injective {l} {m} hl hm e =
      resolve_route-key_injective u l.pathname m.pathname l.search m.search hl.pathname hm.pathname
        hl.search hm.search e

  -- A page that answers a route's key was requested from that route's API path.
  pub Answers-api_path :
      {requests : List Text} {l : Location} {page : Page}
      → IsLocation l
      → (a : Answers requests (route_at u l).key page)
      → get_elem? requests a.number ≡ (route_at u l).api_path
  Answers-api_path hl a =
      a.asked.made
      ∙ sym a.asked.serves.path
      ∙ ap (λ (r : Route). r.api_path)
          (route_at-key_injective a.asked.serves.valid hl a.asked.serves.key_eq)
