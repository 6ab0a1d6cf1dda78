-- ===== src/Spa/Quiet.antt =====
-- The callbacks of `App` that do not touch the load effect move, drop cached pages and raise the
-- refresh token: each keeps every property that survives these three.
use go_resolver.Base.{
  Text, inl, inr, codes, ◌+◌, subst, not, Bool-cases, Option-cases, List, ◌∷◌, ℕ, erase, ◌===◌,
  if◌then◌else◌, if_ind, ◌==◌,
}
use go_resolver.Base.Url.{UrlParams}
use go_resolver.Route.Normal.{normalize_path-Lacks}
use go_resolver.Spa.{
  Location, Url, Options, no_options, Response, is_ok, Spa, route_at, sync_location, refresh_key,
  navigate, navigate_url, assign, stay, normalized, is_here, at_url, move_window, scroll_top,
  replace_state, push_state, after_mutation, refresh, invalidate_route_cache, redirect_to,
  handle_mutation_response, path_of,
}
use go_resolver.Spa.Events.{Click, handle_click, handle_pop_state}
use go_resolver.Spa.Events.Clicks.{handle_click_cases}
use go_resolver.Spa.Steps.{IsLocation, OptionalUrl, OptionalAnchor}

-- Properties of a state that survive a change of place and the loss of cached pages.
pub record IsFrame (P : Spa → Type 0) : Type 0 where
  -- The later state differs at most in its locations, its history and what the browser was told.
  pub moved :
      (here at : Location) (history : List Location) (scrolls : ℕ) (assigned : List Text) (s : Spa)
      → IsLocation here
      → IsLocation at
      → P s
      → P (record s {
        here = here;
        location_state = at;
        history = history;
        scrolls = scrolls;
        assigned = assigned;
      })
  pub erased :
      (key : Text) (token : ℕ) (s : Spa)
      → P s
      → P (record s { page_cache = erase key s.page_cache; refresh_token = token })
  pub here : (s : Spa) → P s → IsLocation s.here
  pub at : (s : Spa) → P s → IsLocation s.location_state

module _ (u : UrlParams) {P : Spa → Type 0} (f : IsFrame P) where
  move_window_keeps :
      (l : Location) (o : Options) (s : Spa)
      → IsLocation l
      → P s
      → P (record (move_window u l o s) { location_state = l })
  unfolding move_window
  move_window_keeps l o s hl h =
      let Q : Spa → Type 0 = λ t. P (record t { location_state = l }) in
      let moved = λ (history : List Location). f.moved l l history s.scrolls s.assigned s hl hl h in
      if_ind Q (path_of l === path_of s.here) s
        (if o.replace then replace_state u l s else push_state u l s)
        (λ _. f.moved s.here l s.history s.scrolls s.assigned s (f.here s h) hl h)
        (λ _.
          if_ind Q o.replace (replace_state u l s) (push_state u l s) (λ _. moved s.history)
            (λ _. moved (s.here ∷ s.history)))

  scroll_top_keeps : (o : Options) (s : Spa) → P s → P (scroll_top u o s)
  unfolding scroll_top
  scroll_top_keeps o s h =
      if_ind P o.preserve_scroll s (record s { scrolls = s.scrolls + 1 }) (λ _. h)
        (λ _. f.moved s.here s.location_state s.history _ s.assigned s (f.here s h) (f.at s h) h)

  sync_location_keeps :
      (l : Location) (o : Options) (s : Spa) → IsLocation l → P s → P (sync_location u l o s)
  unfolding sync_location
  sync_location_keeps l o s hl h =
      scroll_top_keeps o (record (move_window u l o s) { location_state = l })
        (move_window_keeps l o s hl h)

  refresh_key_keeps : (key : Text) (s : Spa) → P s → P (refresh_key u key s)
  unfolding refresh_key
  refresh_key_keeps key s h = f.erased key _ s h

  invalidate_keeps : (l : Location) (s : Spa) → P s → P (invalidate_route_cache u l s)
  unfolding invalidate_route_cache
  invalidate_keeps l s h = f.erased _ s.refresh_token s h

  stay_keeps : (l : Location) (o : Options) (s : Spa) → P s → P (stay u l o s)
  unfolding stay
  stay_keeps l o s h =
      if_ind P o.refresh (refresh_key u (route_at u l).key s) s
        (λ _. refresh_key_keeps (route_at u l).key s h) (λ _. h)

  pub navigate_keeps :
      (l : Location) (o : Options) (s : Spa) → IsLocation l → P s → P (navigate u l o s)
  unfolding navigate
  navigate_keeps l o s hl h =
      if_ind P (is_here u l s) (stay u (normalized u l) o s) (sync_location u (normalized u l) o s)
        (λ _. stay_keeps (normalized u l) o s h)
        (λ _.
          sync_location_keeps (normalized u l) o s
            (record { pathname = normalize_path-Lacks l.pathname hl.pathname; search = hl.search })
            h)

  assign_keeps : (href : Text) (s : Spa) → P s → P (assign u href s)
  assign_keeps href s h =
      f.moved s.here s.location_state s.history s.scrolls _ s (f.here s h) (f.at s h) h

  pub navigate_url_keeps :
      (url : Url) (o : Options) (s : Spa)
      → IsLocation url.location
      → P s
      → P (navigate_url u url o s)
  unfolding navigate_url
  navigate_url_keeps url o s hl h =
      if_ind P (url.origin === s.origin) (navigate u url.location o s) (assign u url.href s)
        (λ _. navigate_keeps url.location o s hl h) (λ _. assign_keeps url.href s h)

  pub refresh_keeps : (rendered : Location) (s : Spa) → P s → P (refresh u rendered s)
  unfolding refresh
  refresh_keeps rendered s h = refresh_key_keeps (route_at u rendered).key s h

  redirect_to_keeps :
      (rendered : Location) (url : Url) (s : Spa)
      → IsLocation url.location
      → P s
      → P (redirect_to u rendered url s)
  unfolding redirect_to
  redirect_to_keeps rendered url s hl h =
      let go = navigate u url.location no_options (invalidate_route_cache u url.location s) in
      if_ind P (not (url.origin === s.origin)) (assign u url.href s)
        (if at_url u url s then refresh u rendered s else go) (λ _. assign_keeps url.href s h)
        (λ _.
          if_ind P (at_url u url s) (refresh u rendered s) go (λ _. refresh_keeps rendered s h)
            (λ _. navigate_keeps url.location no_options _ hl (invalidate_keeps url.location s h)))

  after_mutation_keeps :
      (rendered : Location) (r : Response) (s : Spa)
      → OptionalUrl r.url
      → P s
      → P (after_mutation u rendered r s)
  unfolding after_mutation
  after_mutation_keeps rendered r s hl h =
      let refreshed = refresh_keeps rendered s h in
      elim (Bool-cases r.redirected) [
        | inr plain ↦ rw (plain, after_mutation) refreshed
        | inl redirected ↦ elim (Option-cases r.url) [
          | inl missing ↦ rw (redirected, missing, after_mutation) refreshed
          | inr (url, found) ↦
              rw (redirected, found, after_mutation)
                (redirect_to_keeps rendered url s (subst OptionalUrl found hl) h)
        ]
      ]

  pub mutation_keeps :
      (rendered : Location) (r : Response) (s : Spa)
      → OptionalUrl r.url
      → P s
      → P (handle_mutation_response u rendered r s).0
  unfolding handle_mutation_response
  mutation_keeps rendered r s hl h = elim (Bool-cases (r.status == 401)) [
    | inl login ↦ rw (login, handle_mutation_response) (assign_keeps (codes "/login") s h)
    | inr known ↦ elim (Bool-cases (is_ok r)) [
      | inl fine ↦
          rw (known, fine, handle_mutation_response) (after_mutation_keeps rendered r s hl h)
      | inr refused ↦ rw (known, refused, handle_mutation_response) h
    ]
  ]

  pub handle_click_keeps :
      (c : Click) (s : Spa) → OptionalAnchor c.anchor → P s → P (handle_click u c s).0
  handle_click_keeps c s hl h = elim (handle_click_cases u c s) [
    | inl (ignored, same) ↦ rw same h
    | inr (a, taken, done) ↦
        rw done
          (navigate_keeps a.url.location no_options s (subst OptionalAnchor taken.anchor hl) h)
  ]

  pub pop_state_keeps : (l : Location) (s : Spa) → IsLocation l → P s → P (handle_pop_state l s)
  unfolding handle_pop_state
  pop_state_keeps l s hl h = f.moved l l s.history s.scrolls s.assigned s hl hl h
