-- ===== src/Spa/Loading.antt =====
-- The load effect of `App` (web/frontend/src/app.tsx): its dependencies, its cleanup, its body, and
-- the callbacks that run when a request settles.
use go_resolver.Base.{
  Text, Bool, true, false, not, ◌&&◌, ◌||◌, Option, none, some, List, [], ◌∷◌, ◌++◌, codes, ◌===◌,
  if◌then◌else◌, ◌==◌, ℕ, ◌+◌, lookup, insert, erase, decimal, length, reverse,
}
use go_resolver.Base.Url.{UrlParams}
use go_resolver.Route.{Page, Route, response}
use go_resolver.Spa.{Location, Subscription, Deps, Spa, route_at}

-- `===` on cached pages: each answered request gives an object of its own.
unfoldable pub same_page : Option Page → Option Page → Bool
same_page none none = true
same_page none (some q) = false
same_page (some p) none = false
same_page (some p) (some q) = elim p.content [
  | response m ↦ elim q.content [ response n ↦ m == n | _ ↦ false ]
  | _ ↦ false
]

abbrev is_some {ℓ} : {A : Type ℓ} → Option A → Bool
is_some none = false
is_some (some _) = true

unfoldable pub same_text : Option Text → Option Text → Bool
same_text none none = true
same_text none (some t) = false
same_text (some s) none = false
same_text (some s) (some t) = s === t

-- `${route.key}:${refreshToken}`
unfoldable pub request_key : Text → ℕ → Text
request_key key token = key ++ codes ":" ++ decimal token

-- What a settled request gives: the page of its JSON body, or the message of an error.
pub data Result : Type 0 where
  answered : (active view : Text) → Result
  failed : Text → Result

module _ (u : UrlParams) where
  -- `route.error` and `route.staticPage` are new objects whenever the location has changed.
  unfoldable pub same_route : Location → Location → Bool
  same_route l m =
      let r = route_at u l in
      let q = route_at u m in
      (r.key === q.key)
      && same_text r.api_path q.api_path
      && ((l.pathname === m.pathname) && (l.search === m.search)
          || not (
              is_some r.error || is_some r.static_page || is_some q.error || is_some q.static_page))

  abbrev pub cached_page : Spa → Option Page
  cached_page s = lookup (route_at u s.location_state).key s.page_cache

  -- Whether React leaves the effect alone after a render.
  unfoldable pub same_deps : Option Deps → Deps → Bool
  unfolding same_route same_text same_page
  same_deps none now = false
  same_deps (some old) now =
      same_page old.cached now.cached
      && (old.token == now.token)
      && same_route old.location now.location

  abbrev pub deps_now : Spa → Deps
  deps_now s = record {
    location = s.location_state;
    token = s.refresh_token;
    cached = cached_page s;
  }

-- The cleanup of a run: `cancelled = true`.
unfoldable pub cancel : ℕ → List Subscription → List Subscription
cancel run [] = []
cancel run (c ∷ cs) = (if c.run == run then record c { cancelled = true } else c) ∷ cancel run cs

-- The end of the body: the request of this key and token, shared or made, and its callbacks.
abbrev pub subscribe : Text → ℕ → Spa → Spa
subscribe key n s = record s {
  subscriptions =
      record { run = s.run; promise = n; key = key; cancelled = false } ∷ s.subscriptions;
}

abbrev pub request_page : Text → Text → Spa → Spa
request_page path name s = record s {
  requests = s.requests ++ path ∷ [];
  pending = insert name (length s.requests) s.pending;
  outstanding = (length s.requests, name) ∷ s.outstanding;
}

unfoldable pub load_page : Text → Text → Spa → Spa
load_page key path s =
    let name = request_key key s.refresh_token in
    elim (lookup name s.pending) [
      | some n ↦ subscribe key n s
      | none ↦ subscribe key (length s.requests) (request_page path name s)
    ]

abbrev pub show_page : Page → Spa → Spa
show_page page s = record s { state = record { page = some page; error = none; loading = false } }

module _ (u : UrlParams) where
  -- The body of the effect. `fetchJSON(undefined)` is never reached: such a route has an error or a
  -- page of its own.
  unfoldable pub run_effect : Route → Spa → Spa
  unfolding load_page
  run_effect route s = elim route.error [
    | some message ↦ record s {
      state = record { page = none; error = some message; loading = false };
    }
    | none ↦ elim route.static_page [
      | some page ↦ show_page page s
      | none ↦ elim (lookup route.key s.page_cache) [
        | some page ↦ show_page page s
        | none ↦ elim route.api_path [
          | none ↦ s
          | some path ↦
              load_page route.key path
                (record s { state = record { page = s.state.page; error = none; loading = true } })
        ]
      ]
    ]
  ]

  -- A render and its load effect: if a dependency has changed, the cleanup of the last run and then
  -- the body.
  unfoldable pub commit : Spa → Spa
  unfolding same_deps cancel run_effect
  commit s =
      if same_deps u s.ran_with (deps_now u s)
      then s
      else run_effect (route_at u s.location_state) (record s {
        subscriptions = cancel s.run s.subscriptions;
        run = s.run + 1;
        ran_with = some (deps_now u s);
      })

-- The `.then` and `.catch` of one subscription.
unfoldable pub call_back : Result → Subscription → Spa → Spa
call_back result c s = if c.cancelled then s else elim result [
  | answered active view ↦
      let page : Page = record { active = active; view = view; content = response c.promise } in
      record s {
        page_cache = insert c.key page s.page_cache;
        state = record { page = some page; error = none; loading = false };
      }
  | failed message ↦ record s {
    state = record { page = s.state.page; error = some message; loading = false };
  }
]

unfoldable pub call_backs : ℕ → Result → List Subscription → Spa → Spa
unfolding call_back
call_backs n result [] s = s
call_backs n result (c ∷ cs) s =
    call_backs n result cs (if c.promise == n then call_back result c s else s)

-- `.finally`: the entry goes if it is still this request's.
unfoldable pub forget : ℕ → Text → List (Text × ℕ) → List (Text × ℕ)
forget n name pending = elim (lookup name pending) [
  | none ↦ pending
  | some m ↦ if m == n then erase name pending else pending
]

unfoldable pub remove_outstanding : ℕ → List (ℕ × Text) → List (ℕ × Text)
remove_outstanding n [] = []
remove_outstanding n ((m, name) ∷ rest) =
    if m == n then remove_outstanding n rest else (m, name) ∷ remove_outstanding n rest

-- The request `n`, with its `requestKey`, settles; its callbacks run in the order of their runs.
unfoldable pub settle : ℕ → Text → Result → Spa → Spa
unfolding call_backs forget remove_outstanding
settle n name result s = call_backs n result (reverse s.subscriptions) (record s {
  pending = forget n name s.pending;
  outstanding = remove_outstanding n s.outstanding;
})
