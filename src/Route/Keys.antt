-- ===== src/Route/Keys.antt =====
-- The key of a route determines the route, so the page cache cannot mix two routes up.
use go_resolver.Base.{
  Text, ◌≡◌, ◌≢◌, refl, sym, ap, ap₂, subst, ◌∙◌, arith, Bool, true, false, [], ◌∷◌, ◌++◌,
  append-nil, codes, ◌===◌, Lacks, All-append_right, append_cut, some, none, if◌then◌else◌,
}
use go_resolver.Base.Url.{UrlParams}
use go_resolver.Route.{match_digits, resolve_numbered, resolve_path, resolve_route, normalize_path}
use go_resolver.Route.Normal.{normalize_path-Lacks}

-- What a browser gives as `location.search`: nothing, or text behind a question mark.
pub data IsSearch : Text → Type 0 where
  no_search : IsSearch []
  search : (s : Text) → IsSearch (b'?' ∷ s)

-- The part of the search that a route depends on.
numbered_search : Text → Text → Text
numbered_search path s = elim (match_digits (codes "/domains/") (codes "/records") path) [
  | none ↦ s
  | some _ ↦ []
]

effective_search : Text → Text → Text
effective_search path s =
    if path === codes "/login"
    then s
    else if path === codes "/"
    then []
    else if path === codes "/domains"
    then []
    else if path === codes "/servers"
    then []
    else if path === codes "/analytics"
    then []
    else if path === codes "/settings"
    then s
    else numbered_search path s

numbered_search-IsSearch : (path s : Text) → IsSearch s → IsSearch (numbered_search path s)
unfolding numbered_search
numbered_search-IsSearch path s h =
    elim (match_digits (codes "/domains/") (codes "/records") path)
      as (λ o. IsSearch (elim o [ none ↦ s | some _ ↦ [] ])) [ none ↦ h | some _ ↦ no_search ]

if-IsSearch : (b : Bool) (s t : Text) → IsSearch s → IsSearch t → IsSearch (if b then s else t)
if-IsSearch true s t h k = h
if-IsSearch false s t h k = k

effective_search-IsSearch : (path s : Text) → IsSearch s → IsSearch (effective_search path s)
unfolding effective_search
effective_search-IsSearch path s h =
    let last = numbered_search-IsSearch path s h in
    let at_settings = if-IsSearch (path === codes "/settings") s _ h last in
    let at_analytics = if-IsSearch (path === codes "/analytics") [] _ no_search at_settings in
    let at_servers = if-IsSearch (path === codes "/servers") [] _ no_search at_analytics in
    let at_domains = if-IsSearch (path === codes "/domains") [] _ no_search at_servers in
    let at_root = if-IsSearch (path === codes "/") [] _ no_search at_domains in
    if-IsSearch (path === codes "/login") s _ h at_root

not-Lacks : (q t : Text) → Lacks b'?' (q ++ b'?' ∷ t) → ⊥
not-Lacks q t h = (All-append_right (λ d. d ≢ b'?') q (b'?' ∷ t) h).0 refl

module _ (u : UrlParams) where
  resolve_numbered-key :
      (path s : Text) → (resolve_numbered u path s).key ≡ path ++ numbered_search path s
  unfolding resolve_numbered numbered_search
  resolve_numbered-key path s = ground (arith, append-nil path)

  resolve_numbered-numbered_search :
      (path s : Text) → resolve_numbered u path (numbered_search path s) ≡ resolve_numbered u path s
  unfolding resolve_numbered numbered_search
  resolve_numbered-numbered_search path s = ground arith

  resolve_path-key : (path s : Text) → (resolve_path u path s).key ≡ path ++ effective_search path s
  unfolding resolve_path effective_search
  resolve_path-key path s = ground (arith, append-nil path, resolve_numbered-key path s)

  resolve_path-effective_search :
      (path s : Text) → resolve_path u path (effective_search path s) ≡ resolve_path u path s
  unfolding resolve_path effective_search
  resolve_path-effective_search path s = ground (arith, resolve_numbered-numbered_search path s)

search_cut :
    (p q s t : Text)
    → Lacks b'?' p
    → Lacks b'?' q
    → IsSearch s
    → IsSearch t
    → p ++ s ≡ q ++ t
    → (p ≡ q) × (s ≡ t)
search_cut p q s t hp hq no_search no_search e = (sym (append-nil p) ∙ e ∙ append-nil q, refl)
search_cut p q s t hp hq no_search (search t') e =
    absurd (not-Lacks q t' (subst (Lacks b'?') (sym (append-nil p) ∙ e) hp))
search_cut p q s t hp hq (search s') no_search e =
    absurd (not-Lacks p s' (subst (Lacks b'?') (sym (append-nil q) ∙ sym e) hq))
search_cut p q s t hp hq (search s') (search t') e =
    let (paths, rests) = append_cut b'?' p q s' t' hp hq e in (paths, ap (b'?' ∷◌) rests)

module _ (u : UrlParams) where
  -- Two routes with the same key are the same route, in every field, where no path holds a
  -- question mark and each search is empty or begins with one.
  pub resolve_route-key_injective :
      (p q s t : Text)
      → Lacks b'?' p
      → Lacks b'?' q
      → IsSearch s
      → IsSearch t
      → (resolve_route u p s).key ≡ (resolve_route u q t).key
      → resolve_route u p s ≡ resolve_route u q t
  unfolding resolve_route
  resolve_route-key_injective p q s t hp hq hs ht e =
      let m = normalize_path p in
      let n = normalize_path q in
      let keys : m ++ effective_search m s ≡ n ++ effective_search n t =
        sym (resolve_path-key u m s) ∙ e ∙ resolve_path-key u n t in
      let (paths, searches) =
        search_cut m n (effective_search m s) (effective_search n t) (normalize_path-Lacks p hp)
          (normalize_path-Lacks q hq) (effective_search-IsSearch m s hs)
          (effective_search-IsSearch n t ht) keys in
      sym (resolve_path-effective_search u m s)
      ∙ ap₂ (resolve_path u) paths searches
      ∙ resolve_path-effective_search u n t
