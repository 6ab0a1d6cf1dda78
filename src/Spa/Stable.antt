-- ===== src/Spa/Stable.antt =====
-- The load effect does not ask for another run of itself.
use go_resolver.Base.{
  Text, ◌≡◌, refl, sym, true, none, some, Option, Option_ind, lookup, ===_refl, Bindings-lookup,
  ==_iff, if_ind, ℕ,
}
use mathlib.Core.Path.{subst₂}
use go_resolver.Base.Url.{UrlParams}
use go_resolver.Route.{Page, Route, response}
use go_resolver.Spa.{Location, Spa, Deps, route_at}
use go_resolver.Spa.Loading.{
  same_page, same_text, same_deps, same_route, deps_now, cached_page, commit, run_effect, load_page,
  request_key,
}
use go_resolver.Spa.Steps.{Reach}
use go_resolver.Spa.Invariant.{IsCoherent}
use go_resolver.Spa.Invariant.Rendering.{begun}
use go_resolver.Spa.Invariant.Reachable.{Reach-IsCoherent}
use go_resolver.Spa.Shown.{IsUpToDate}

module _ (u : UrlParams) where
  -- The later state has the dependencies of the earlier one, and ran with the same ones.
  record Keeps (s t : Spa) : Type 0 where
    ran : t.ran_with ≡ s.ran_with
    deps : deps_now u t ≡ deps_now u s

  run_effect-Keeps : (r : Route) (s : Spa) → Keeps s (run_effect u r s)
  unfolding run_effect load_page
  run_effect-Keeps r s =
      Option_ind (Keeps s) r.error _ _
        (λ _.
          Option_ind (Keeps s) r.static_page _ _
            (λ _.
              Option_ind (Keeps s) (lookup r.key s.page_cache) _ _
                (λ _.
                  Option_ind (Keeps s) r.api_path _ _ (λ _. record { ran = refl; deps = refl })
                    (λ path _.
                      Option_ind (Keeps s) (lookup (request_key r.key s.refresh_token) s.pending) _
                        _ (λ _. record { ran = refl; deps = refl })
                        (λ n _. record { ran = refl; deps = refl })))
                (λ page _. record { ran = refl; deps = refl }))
            (λ page _. record { ran = refl; deps = refl }))
        (λ message _. record { ran = refl; deps = refl })

  same_page_refl : (p : Page) (n : ℕ) → p.content ≡ response n → same_page (some p) (some p) ≡ true
  unfolding same_page
  same_page_refl p n e = rw (e, same_page) (rw e ((==_iff n n).1 refl))

  same_text_refl : (o : Option Text) → same_text o o ≡ true
  unfolding same_text
  same_text_refl none = refl
  same_text_refl (some t) = ===_refl t

  same_route_refl : (l : Location) → same_route u l l ≡ true
  unfolding same_route
  same_route_refl l =
      rw
        (
          ===_refl (route_at u l).key,
          same_text_refl (route_at u l).api_path,
          ===_refl l.pathname,
          ===_refl l.search,
        )
        refl

  cached_refl :
      (s : Spa) (o : Option Page)
      → cached_page u s ≡ o
      → IsCoherent u s
      → same_page (cached_page u s) (cached_page u s) ≡ true
  unfolding same_page
  cached_refl s none e h = rw e refl
  cached_refl s (some page) e h =
      let a = Bindings-lookup _ _ s.page_cache h.cache e in
      rw e (same_page_refl page a.number a.content)

  same_deps_refl :
      (s : Spa) → IsCoherent u s → same_deps u (some (deps_now u s)) (deps_now u s) ≡ true
  unfolding same_deps
  same_deps_refl s h =
      rw
        (
          cached_refl s (cached_page u s) refl h,
          (==_iff s.refresh_token s.refresh_token).1 refl,
          same_route_refl s.location_state,
        )
        refl

  fresh_of :
      (t : Spa) (now : Deps)
      → t.ran_with ≡ some now
      → deps_now u t ≡ now
      → same_deps u (some now) now ≡ true
      → IsUpToDate u t
  fresh_of t now ran deps h = subst₂ (λ o (d : Deps). same_deps u o d ≡ true) (sym ran) (sym deps) h

  -- A render runs the load effect at most once: right after a render of a state that the page can
  -- reach, the effect's dependencies are those with which it ran.
  pub commit-IsUpToDate : (s : Spa) → Reach u s → IsUpToDate u (commit u s)
  unfolding commit
  commit-IsUpToDate s r =
      let h = Reach-IsCoherent u r in
      if_ind (IsUpToDate u) (same_deps u s.ran_with (deps_now u s)) s
        (run_effect u (route_at u s.location_state) (begun u s)) (λ same. same)
        (λ _.
          let keeps = run_effect-Keeps (route_at u s.location_state) (begun u s) in
          fresh_of (run_effect u (route_at u s.location_state) (begun u s)) (deps_now u s) keeps.ran
            keeps.deps (same_deps_refl s h))
