-- ===== src/Spa/Mutations.antt =====
-- `handleMutationResponse`: after a change on the server the page that the browser is led to is not in the
-- cache.
use go_resolver.Base.{
  List, Text, ◌≡◌, refl, ap, subst, ◌∙◌, ℕ, ◌/◌, arith, Bool-cases, inl, inr, true, false, none,
  some, Option, Option-cases, lookup, erase, lookup-erase, ===_refl, ===_iff, ◌==◌,
}
use go_resolver.Base.Url.{UrlParams}
use go_resolver.Route.{Page, normalize_path, resolve_route, resolve_path, same_location}
use go_resolver.Spa.{
  Location, Url, Options, no_options, Response, is_ok, Spa, route_at, normalized, sync_location,
  navigate, refresh, refresh_key, invalidate_route_cache, handle_mutation_response, redirect_to,
  after_mutation, at_url, is_here,
}
use go_resolver.Spa.Loading.{cached_page}

-- A URL of this origin whose path has at most one slash at its end.
abbrev pub IsInside : Spa → Option Url → Type 0
IsInside s none = Unit
IsInside s (some url) =
    (url.origin ≡ s.origin)
    × (normalize_path (normalize_path url.location.pathname) ≡ normalize_path url.location.pathname)

lookup-erase_self {ℓ} : {V : Type ℓ} (k : Text) (m : List (Text × V)) → lookup k (erase k m) ≡ none
lookup-erase_self k m = rw (lookup-erase, ===_refl) refl

ok_not_401 : (status : ℕ) → (status / 100 == 2) ≡ true → (status == 401) ≡ false
ok_not_401 status h = ground arith

module _ (u : UrlParams) where
  sync_location-page_cache :
      (l : Location) (o : Options) (s : Spa) → (sync_location u l o s).page_cache ≡ s.page_cache
  unfolding sync_location
  sync_location-page_cache l o s = ground arith

  sync_location-location_state :
      (l : Location) (o : Options) (s : Spa) → (sync_location u l o s).location_state ≡ l
  unfolding sync_location
  sync_location-location_state l o s = ground arith

  refresh_drops : (s : Spa) → cached_page u (refresh u s.location_state s) ≡ none
  unfolding refresh refresh_key
  refresh_drops s = lookup-erase_self _ s.page_cache

  dropped :
      (t : Spa) (l : Location) (k : Text) (m : List (Text × Page))
      → t.location_state ≡ l
      → t.page_cache ≡ erase k m
      → (route_at u l).key ≡ k
      → cached_page u t ≡ none
  dropped t l k m at cache key =
      (λ i. lookup (route_at u (at i)).key (cache i))
      ∙ ap (λ (j : Text). lookup j (erase k m)) key
      ∙ lookup-erase_self k m

  navigate_elsewhere :
      (l : Location) (s : Spa)
      → is_here u l s ≡ false
      → normalize_path (normalize_path l.pathname) ≡ normalize_path l.pathname
      → cached_page u (navigate u l no_options (invalidate_route_cache u l s)) ≡ none
  unfolding navigate invalidate_route_cache resolve_route
  navigate_elsewhere l s away once =
      let t = invalidate_route_cache u l s in
      rw (away, navigate)
        (dropped (sync_location u (normalized u l) no_options t) (normalized u l) (route_at u l).key
          s.page_cache (sync_location-location_state (normalized u l) no_options t)
          (sync_location-page_cache (normalized u l) no_options t)
          (ap (λ (path : Text). (resolve_path u path l.search).key) once))

  redirect :
      (s : Spa) (url : Url)
      → IsInside s (some url)
      → cached_page u (redirect_to u s.location_state url s) ≡ none
  unfolding redirect_to same_location
  redirect s url (same, once) = elim (Bool-cases (at_url u url s)) [
    | inl here ↦ rw ((===_iff url.origin s.origin).1 same, here, redirect_to) (refresh_drops s)
    | inr away ↦
        rw ((===_iff url.origin s.origin).1 same, away, redirect_to)
          (navigate_elsewhere url.location s away once)
  ]

  after :
      (s : Spa) (r : Response)
      → IsInside s r.url
      → cached_page u (after_mutation u s.location_state r s) ≡ none
  unfolding after_mutation
  after s r inside = elim (Bool-cases r.redirected) [
    | inr plain ↦ rw (plain, after_mutation) (refresh_drops s)
    | inl redirected ↦ elim (Option-cases r.url) [
      | inl missing ↦ rw (redirected, missing, after_mutation) (refresh_drops s)
      | inr (url, found) ↦
          rw (redirected, found, after_mutation) (redirect s url (subst (IsInside s) found inside))
    ]
  ]

  -- After a response that is ok, where `handleMutationResponse` was made by the current render, and
  -- a redirect leads to a page of this origin with at most one slash at its end: the page that the
  -- application is at then is not in the cache.
  pub mutation_drops_cache :
      (s : Spa) (r : Response)
      → is_ok r ≡ true
      → IsInside s r.url
      → cached_page u (handle_mutation_response u s.location_state r s).0 ≡ none
  unfolding handle_mutation_response
  mutation_drops_cache s r fine inside =
      rw (ok_not_401 r.status fine, fine, handle_mutation_response) (after s r inside)
