-- ===== src/Spa/Events.antt =====
-- The document's event handlers of `App` (web/frontend/src/app.tsx), and `fetchJSON` of
-- web/frontend/src/common.tsx.
pub mod Clicks
pub mod Forms
use go_resolver.Base.{
  Text, Bool, true, false, not, ◌&&◌, ◌||◌, Option, none, some, List, [], ◌∷◌, ◌++◌, codes, ◌===◌,
  if◌then◌else◌, ◌==◌, ℕ, ◌-◌, decimal, leb, truthy, or_text, map,
}
use go_resolver.Base.Url.{UrlParams}
use go_resolver.Spa.{Location, Url, Spa, Response, is_ok, no_options, navigate, assign, route_at}
use go_resolver.Spa.Loading.{Result, answered, failed, settle}

-- The link around the target of a click, `target.closest("a[href]")`.
pub record Anchor : Type 0 where
  pub spa_ignore : Option Text
  pub download : Bool
  pub target : Text
  pub url : Url

pub record Click : Type 0 where
  pub default_prevented : Bool
  pub button : ℕ
  pub meta_key : Bool
  pub ctrl_key : Bool
  pub shift_key : Bool
  pub alt_key : Bool
  pub anchor : Option Anchor

-- `dataset.spaIgnore === "true"`
unfoldable pub is_ignored : Option Text → Bool
is_ignored none = false
is_ignored (some value) = value === codes "true"

-- The first guard of `handleClick`.
abbrev pub is_modified : Click → Bool
is_modified c =
    c.default_prevented
    || not (c.button == 0)
    || c.meta_key
    || c.ctrl_key
    || c.shift_key
    || c.alt_key

-- The guards on the link.
abbrev pub leaves_page : Anchor → Bool
leaves_page a =
    is_ignored a.spa_ignore || a.download || (truthy a.target && not (a.target === codes "_self"))

module _ (u : UrlParams) where
  abbrev click_anchor : Anchor → Spa → Spa × Bool
  click_anchor a s =
      if leaves_page a
      then (s, false)
      else if not (a.url.origin === s.origin)
      then (s, false)
      else elim (route_at u a.url.location).error [
        | some _ ↦ (s, false)
        | none ↦ (navigate u a.url.location no_options s, true)
      ]

  -- The new state, and whether `event.preventDefault()` was called.
  unfoldable pub handle_click : Click → Spa → Spa × Bool
  handle_click c s =
      if is_modified c
      then (s, false)
      else elim c.anchor [ none ↦ (s, false) | some a ↦ click_anchor a s ]

-- `popstate`: the browser has moved to the location.
unfoldable pub handle_pop_state : Location → Spa → Spa
handle_pop_state l s = record s { here = l; location_state = l }

-- The value of a form's field: a text, or a file by its name.
pub data Value : Type 0 where
  text : Text → Value
  file : Text → Value

-- A submitted form: `query` is `new URLSearchParams(new FormData(form)).toString()`, `entries` the
-- entries of `new FormData(form)`, `submitter` the name and value of the button or input.
pub record Form : Type 0 where
  pub default_prevented : Bool
  pub is_form : Bool
  pub spa_ignore : Option Text
  pub method : Text
  pub url : Url
  pub query : Text
  pub entries : List (Text × Value)
  pub submitter : Option (Text × Text)

pub data Body : Type 0 where
  multipart : List (Text × Value) → Body
  urlencoded : List (Text × Text) → Body

pub record Request : Type 0 where
  pub url : Text
  pub method : Text
  pub body : Body

pub data Submitted : Type 0 where
  ignored : Submitted
  navigated : Spa → Submitted
  sent : Request → Submitted

upper_unit : ℕ → ℕ
upper_unit c = if leb b'a' c && leb c b'z' then c - 32 else c

-- `toUpperCase` of an ASCII text, as a form's method is.
unfoldable pub to_upper_case : Text → Text
unfolding upper_unit
to_upper_case s = map upper_unit s

-- `formData.append(submitter.name, submitter.value)`, if the submitter has a name.
unfoldable pub with_submitter : Option (Text × Text) → List (Text × Value) → List (Text × Value)
with_submitter none entries = entries
with_submitter (some ([], value)) entries = entries
with_submitter (some (c ∷ name, value)) entries = entries ++ (c ∷ name, text value) ∷ []

-- `value instanceof File && value.name !== ""`, for some entry.
unfoldable pub has_binary_field : List (Text × Value) → Bool
has_binary_field [] = false
has_binary_field ((name, text t) ∷ rest) = has_binary_field rest
has_binary_field ((name, file f) ∷ rest) = not (f === []) || has_binary_field rest

-- The loop that fills the `URLSearchParams` of the body.
unfoldable pub text_entries : List (Text × Value) → List (Text × Text)
text_entries [] = []
text_entries ((name, text t) ∷ rest) = (name, t) ∷ text_entries rest
text_entries ((name, file f) ∷ rest) = text_entries rest

unfoldable pub form_body : Form → Body
unfolding with_submitter has_binary_field text_entries
form_body f =
    let entries = with_submitter f.submitter f.entries in
    if has_binary_field entries then multipart entries else urlencoded (text_entries entries)

-- `search ? `?${search}` : ""`
abbrev search_of_query : Text → Text
search_of_query query = if truthy query then codes "?" ++ query else []

unfoldable pub handle_submit : UrlParams → Form → Spa → Submitted
unfolding form_body to_upper_case
handle_submit u f s =
    let method = to_upper_case (or_text f.method (codes "get")) in
    if f.default_prevented || not f.is_form || is_ignored f.spa_ignore
    then ignored
    else if not (f.url.origin === s.origin)
    then ignored
    else if method === codes "GET"
    then navigated (
        navigate u (record { pathname = f.url.location.pathname; search = search_of_query f.query })
          no_options s)
    else sent (record { url = f.url.href; method = method; body = form_body f })

-- What `fetchJSON` makes of a response whose body is a page with this `Active` and `View`.
unfoldable pub fetch_json : (active view : Text) → Response → Result
fetch_json active view r =
    if r.status == 401
    then failed (codes "Unauthorized")
    else if not (is_ok r)
    then failed (decimal r.status ++ codes " " ++ r.status_text)
    else answered active view

-- A page request is answered: `fetchJSON` leaves for the login page on a 401, then it settles.
unfoldable pub settle_response :
    (n : ℕ) (name active view : Text) → Response → UrlParams → Spa → Spa
unfolding fetch_json
settle_response n name active view r u s =
    settle n name (fetch_json active view r)
      (if r.status == 401 then assign u (codes "/login") s else s)
