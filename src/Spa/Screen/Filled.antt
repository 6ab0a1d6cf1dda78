-- ===== src/Spa/Screen/Filled.antt =====
-- The loading page is shown only while a page is loading.
use go_resolver.Base.{
  Text, ◌≡◌, ◌≢◌, ◌⊎◌, inl, inr, refl, Bool, true, Option, none, some, List, [], ◌∷◌, ℕ, ◌==◌,
  if_ind, Option_ind, reverse, lookup,
}
use go_resolver.Base.Url.{UrlParams}
use go_resolver.Route.{Page, Route}
use go_resolver.Spa.{Location, PageState, Subscription, Spa, initial, initial_state, route_at}
use go_resolver.Spa.Loading.{
  Result, answered, failed, same_deps, deps_now, request_key, load_page, run_effect, commit,
  call_back, call_backs, settle,
}
use go_resolver.Spa.Quiet.{
  IsFrame, navigate_keeps, navigate_url_keeps, handle_click_keeps, pop_state_keeps, refresh_keeps,
  mutation_keeps,
}
use go_resolver.Spa.Steps.{
  IsLocation, Step, navigates, navigates_url, clicks, pops, refreshes, mutates, renders, settles,
  Reach, opened, next,
}
use go_resolver.Spa.Screen.{loading_page, main_content}

-- There is a page or an error to show, or the page is loading.
abbrev HasContent : PageState → Type 0
HasContent s = (s.loading ≡ true) ⊎ (s.page ≢ none) ⊎ (s.error ≢ none)

a_page : {page : Page} → some page ≢ none
a_page e = cc

an_error : {message : Text} → some message ≢ none
an_error e = cc

loading_of :
    (page : Option Page) (error : Option Text) (loading : Bool)
    → HasContent (record { page = page; error = error; loading = loading })
    → main_content (record { page = page; error = error; loading = loading }) ≡ loading_page
    → loading ≡ true
unfolding main_content
loading_of page error loading (inl h) e = h
loading_of (some page) error loading (inr h) e = cc
loading_of none (some m) loading (inr h) e = cc
loading_of none none loading (inr (inl h)) e = absurd (h refl)
loading_of none none loading (inr (inr h)) e = absurd (h refl)

record IsFilled (s : Spa) : Type 0 where
  here : IsLocation s.here
  location : IsLocation s.location_state
  content : HasContent s.state

-- The callbacks of a request leave a page or an error.
call_back-IsFilled :
    (result : Result) (c : Subscription) (s : Spa) → IsFilled s → IsFilled (call_back result c s)
unfolding call_back
call_back-IsFilled (answered active view) c s h =
    if_ind IsFilled c.cancelled s _ (λ _. h)
      (λ _. record { here = h.here; location = h.location; content = inr (inl a_page) })
call_back-IsFilled (failed message) c s h =
    if_ind IsFilled c.cancelled s _ (λ _. h)
      (λ _. record { here = h.here; location = h.location; content = inr (inr an_error) })

call_backs-IsFilled :
    (n : ℕ) (result : Result) (cs : List Subscription) (s : Spa)
    → IsFilled s
    → IsFilled (call_backs n result cs s)
unfolding call_backs
call_backs-IsFilled n result [] s h = h
call_backs-IsFilled n result (c ∷ cs) s h = call_backs-IsFilled n result cs _ (
    if_ind IsFilled (c.promise == n) (call_back result c s) s (λ _. call_back-IsFilled result c s h)
      (λ _. h))

settle-IsFilled :
    (n : ℕ) (name : Text) (result : Result) (s : Spa)
    → IsFilled s
    → IsFilled (settle n name result s)
unfolding settle
settle-IsFilled n name result s h =
    call_backs-IsFilled n result (reverse s.subscriptions) _
      record { here = h.here; location = h.location; content = h.content }

load_page-IsFilled : (key path : Text) (s : Spa) → IsFilled s → IsFilled (load_page key path s)
unfolding load_page
load_page-IsFilled key path s h =
    Option_ind IsFilled (lookup (request_key key s.refresh_token) s.pending) _ _
      (λ _. record { here = h.here; location = h.location; content = h.content })
      (λ _ _. record { here = h.here; location = h.location; content = h.content })

module _ (u : UrlParams) where
  run_effect-IsFilled : (r : Route) (s : Spa) → IsFilled s → IsFilled (run_effect u r s)
  unfolding run_effect
  run_effect-IsFilled r s h =
      Option_ind IsFilled r.error _ _
        (λ _.
          Option_ind IsFilled r.static_page _ _
            (λ _.
              Option_ind IsFilled (lookup r.key s.page_cache) _ _
                (λ _.
                  Option_ind IsFilled r.api_path _ _ (λ _. h)
                    (λ path _.
                      load_page-IsFilled r.key path _
                        record { here = h.here; location = h.location; content = inl refl }))
                (λ page _. record {
                  here = h.here;
                  location = h.location;
                  content = inr (inl a_page);
                }))
            (λ page _. record { here = h.here; location = h.location; content = inr (inl a_page) }))
        (λ message _. record { here = h.here; location = h.location; content = inr (inr an_error) })

  commit-IsFilled : (s : Spa) → IsFilled s → IsFilled (commit u s)
  unfolding commit
  commit-IsFilled s h =
      if_ind IsFilled (same_deps u s.ran_with (deps_now u s)) s _ (λ _. h)
        (λ _.
          run_effect-IsFilled (route_at u s.location_state) _
            record { here = h.here; location = h.location; content = h.content })

  IsFilled-frame : IsFrame IsFilled
  IsFilled-frame = record {
    moved = λ here at history scrolls assigned s hh ha h. record {
      here = hh;
      location = ha;
      content = h.content;
    };
    erased = λ key token s h. record { here = h.here; location = h.location; content = h.content };
    here = λ s h. h.here;
    at = λ s h. h.location;
  }

  initial_state-HasContent : (r : Route) → HasContent (initial_state u r)
  unfolding initial_state
  initial_state-HasContent r =
      Option_ind HasContent r.error _ _
        (λ _. Option_ind HasContent r.static_page _ _ (λ _. inl refl) (λ page _. inr (inl a_page)))
        (λ message _. inr (inr an_error))

  initial-IsFilled : (origin : Text) (l : Location) → IsLocation l → IsFilled (initial u origin l)
  unfolding initial
  initial-IsFilled origin l h = record {
    here = h;
    location = h;
    content = initial_state-HasContent (route_at u l);
  }

  Step-IsFilled : {s t : Spa} → Step u s t → IsFilled s → IsFilled t
  Step-IsFilled {s} (navigates l o hl) h = navigate_keeps u IsFilled-frame l o s hl h
  Step-IsFilled {s} (navigates_url url o hl) h = navigate_url_keeps u IsFilled-frame url o s hl h
  Step-IsFilled {s} (clicks c hl) h = handle_click_keeps u IsFilled-frame c s hl h
  Step-IsFilled {s} (pops l hl) h = pop_state_keeps u IsFilled-frame l s hl h
  Step-IsFilled {s} (refreshes rendered) h = refresh_keeps u IsFilled-frame rendered s h
  Step-IsFilled {s} (mutates rendered r hl) h = mutation_keeps u IsFilled-frame rendered r s hl h
  Step-IsFilled {s} renders h = commit-IsFilled s h
  Step-IsFilled {s} (settles n name result out) h = settle-IsFilled n name result s h

  Reach-IsFilled : {s : Spa} → Reach u s → IsFilled s
  Reach-IsFilled (opened origin l h) = initial-IsFilled origin l h
  Reach-IsFilled (next r step) = Step-IsFilled step (Reach-IsFilled r)

  -- In every state that the page can reach, the loading page is shown only while the page is loading:
  -- the last branch of the choice of the content is never taken.
  pub main_content-loading :
      (s : Spa) → Reach u s → main_content s.state ≡ loading_page → s.state.loading ≡ true
  main_content-loading s r e =
      loading_of s.state.page s.state.error s.state.loading (Reach-IsFilled r).content e
