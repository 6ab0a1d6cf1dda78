-- ===== src/Spa/Waiting.antt =====
-- What it means that `App` does not wait in vain: while it shows the loading mark, there is a live
-- subscription to a request that is still outstanding.
pub mod Callbacks
pub mod Live
pub mod Progress
use go_resolver.Base.{
  Text, ◌≡◌, ◌≢◌, ◌⊎◌, inl, inr, refl, sym, ap, ◌∙◌, subst, Bool, true, false, Bool-cases, none,
  some, Option, Option-cases, List, [], ◌∷◌, ◌++◌, ℕ, ◌<◌, All, lookup, insert, erase,
  lookup-insert, lookup-erase, ◌===◌, ===_iff, ===_refl, ◌==◌, ==_iff, length, length-append, In,
  if_ind, Option_ind, if◌then◌else◌, reverse, arith, suc, ◌+◌,
}
use mathlib.Core.List.{reverse-cons}
use go_resolver.Base.Url.{UrlParams}
use go_resolver.Spa.{Location, Spa, Subscription, Deps, PageState, route_at, initial}
use go_resolver.Spa.Loading.{
  Result, answered, failed, remove_outstanding, forget, call_back, call_backs, settle, request_page,
  subscribe,
}
use go_resolver.Spa.Books.{IsBooked, In-remove_outstanding, settled-IsBooked, requested-IsBooked}
use go_resolver.Spa.Quiet.{
  IsFrame, navigate_keeps, navigate_url_keeps, handle_click_keeps, pop_state_keeps, refresh_keeps,
  mutation_keeps,
}
use go_resolver.Spa.Steps.{
  IsLocation, Step, navigates, navigates_url, clicks, pops, refreshes, mutates, renders, settles,
  Reach, opened, next,
}
use go_resolver.Spa.Loading.{load_page, run_effect, commit, same_deps, deps_now, request_key}
use go_resolver.Spa.Invariant.Rendering.{begun}
use go_resolver.Route.{Route}

-- A live subscription to an outstanding request.
pub record Waits (cs : List Subscription) (out : List (ℕ × Text)) : Type 0 where
  pub subscription : Subscription
  pub listed : In subscription cs
  pub live : subscription.cancelled ≡ false
  pub name : Text
  pub outstanding : In (subscription.promise, name) out

pub record IsLive (s : Spa) : Type 0 where
  pub here : IsLocation s.here
  pub location : IsLocation s.location_state
  pub booked : IsBooked s.requests s.pending s.outstanding
  pub waits : s.ran_with ≢ none → s.state.loading ≡ true → Waits s.subscriptions s.outstanding
