-- ===== src/Spa/Waiting/Progress.antt =====
-- A loading page is waiting for a request, and the end of that request is the end of the loading.
use go_resolver.Base.{Text, ◌≡◌, ◌≢◌, refl, Bool-cases, inl, inr, true, false, none, ℕ, In}
use go_resolver.Base.Url.{UrlParams}
use go_resolver.Spa.{Spa}
use go_resolver.Spa.Loading.{Result, settle}
use go_resolver.Spa.Steps.{Reach}
use go_resolver.Spa.Waiting.Callbacks.{settle-loading}
use go_resolver.Spa.Waiting.Live.{Reach-IsLive, no_both}

-- An outstanding request after whose end, however it ends, the page is not loading any more.
pub record Ends (s : Spa) : Type 0 where
  pub number : ℕ
  pub name : Text
  pub outstanding : In (number, name) s.outstanding
  pub ends : (result : Result) → (settle number name result s).state.loading ≡ false

-- In every state that the page can reach after its first render, a page that is loading waits for an
-- outstanding request, and stops loading when that request settles.
pub loading-Ends :
    (u : UrlParams) (s : Spa) → Reach u s → s.ran_with ≢ none → s.state.loading ≡ true → Ends s
loading-Ends u s r ran busy =
    let w = (Reach-IsLive u r).waits ran busy in
    record {
      number = w.subscription.promise;
      name = w.name;
      outstanding = w.outstanding;
      ends = λ result.
          elim (Bool-cases (settle w.subscription.promise w.name result s).state.loading) [
            | inr stopped ↦ stopped
            | inl still ↦
                let (_, gone) = settle-loading w.subscription.promise w.name result s still in
                absurd (no_both w.live (gone w.subscription w.listed refl))
          ];
    }
