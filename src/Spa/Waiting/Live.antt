-- ===== src/Spa/Waiting/Live.antt =====
-- Every event and every render keeps the promise that a loading page is waiting for a request.
use go_resolver.Base.{
  Text, ◌≡◌, ◌≢◌, inl, refl, subst, Bool, true, false, none, some, [], ℕ, lookup, length, In,
  if_ind, Option_ind, reverse,
}
use go_resolver.Base.Url.{UrlParams}
use go_resolver.Spa.{Location, Spa, PageState, route_at, initial}
use go_resolver.Spa.Loading.{Result, remove_outstanding, forget, settle, request_page, subscribe}
use go_resolver.Spa.Books.{IsBooked, In-remove_outstanding, settled-IsBooked, requested-IsBooked}
use go_resolver.Spa.Quiet.{
  IsFrame, navigate_keeps, navigate_url_keeps, handle_click_keeps, pop_state_keeps, refresh_keeps,
  mutation_keeps,
}
use go_resolver.Spa.Steps.{
  IsLocation, Step, navigates, navigates_url, clicks, pops, refreshes, mutates, renders, settles,
  Reach, opened, next,
}
use go_resolver.Spa.Loading.{load_page, run_effect, commit, same_deps, deps_now, request_key}
use go_resolver.Spa.Invariant.Rendering.{begun, no_api}
use go_resolver.Route.{Route}
use go_resolver.Route.Outcomes.{Source, resolve_route-Source}
use go_resolver.Spa.Waiting.{IsLive}
use go_resolver.Spa.Waiting.Callbacks.{call_backs-Keeps, settle-loading}

no_entry : (name : Text) {n : ℕ} → lookup name [] ≡ some n → ⊥
unfolding lookup
no_entry name h = cc

pub no_both : {b : Bool} → b ≡ false → b ≡ true → ⊥
no_both h k = absurd (cc)

settle-IsLive :
    (n : ℕ) (name : Text) (result : Result) (s : Spa)
    → In (n, name) s.outstanding
    → IsLive s
    → IsLive (settle n name result s)
unfolding settle
settle-IsLive n name result s here h =
    let k = call_backs-Keeps n result (reverse s.subscriptions) (record s {
      pending = forget n name s.pending;
      outstanding = remove_outstanding n s.outstanding;
    }) in
    record {
      here = rw k.here h.here;
      location = rw k.location h.location;
      booked =
          rw (k.requests, k.pending, k.outstanding)
            (settled-IsBooked s.requests s.pending s.outstanding n name here h.booked);
      waits = λ ran busy.
          let (before, gone) = settle-loading n name result s busy in
          let w = h.waits (subst (λ o. o ≢ none) k.ran ran) before in
          rw (k.subscriptions, k.outstanding)
            (record {
              subscription = w.subscription;
              listed = w.listed;
              live = w.live;
              name = w.name;
              outstanding =
                  In-remove_outstanding n w.subscription.promise w.name s.outstanding
                    (λ e. no_both w.live (gone w.subscription w.listed e)) w.outstanding;
            });
    }

subscribe-IsLive :
    (key name : Text) (n : ℕ) (s : Spa)
    → In (n, name) s.outstanding
    → IsLocation s.here
    → IsLocation s.location_state
    → IsBooked s.requests s.pending s.outstanding
    → IsLive (subscribe key n s)
subscribe-IsLive key name n s out here location booked = record {
  here = here;
  location = location;
  booked = booked;
  waits = λ _ _. record {
    subscription = record { run = s.run; promise = n; key = key; cancelled = false };
    listed = inl refl;
    live = refl;
    name = name;
    outstanding = out;
  };
}

load_page-IsLive :
    (key path : Text) (s : Spa)
    → IsLocation s.here
    → IsLocation s.location_state
    → IsBooked s.requests s.pending s.outstanding
    → IsLive (load_page key path s)
unfolding load_page
load_page-IsLive key path s here location booked =
    let name = request_key key s.refresh_token in
    Option_ind IsLive (lookup name s.pending) _ _
      (λ _.
        subscribe-IsLive key name (length s.requests) (request_page path name s) (inl refl) here
          location (requested-IsBooked s.requests s.pending s.outstanding path name booked))
      (λ n found.
        subscribe-IsLive key name n s (booked.pending_out name n found) here location booked)

stopped-IsLive :
    (s : Spa) (state : PageState)
    → state.loading ≡ false
    → IsLocation s.here
    → IsLocation s.location_state
    → IsBooked s.requests s.pending s.outstanding
    → IsLive (record s { state = state })
stopped-IsLive s state stopped here location booked = record {
  here = here;
  location = location;
  booked = booked;
  waits = λ _ busy. absurd (no_both stopped busy);
}

module _ (u : UrlParams) where
  -- The effect ends with a page, an error or a subscription.
  run_effect-IsLive :
      (r : Route) (s : Spa)
      → Source r
      → IsLocation s.here
      → IsLocation s.location_state
      → IsBooked s.requests s.pending s.outstanding
      → IsLive (run_effect u r s)
  unfolding run_effect
  run_effect-IsLive r s source here location booked =
      Option_ind IsLive r.error _ _
        (λ fine.
          Option_ind IsLive r.static_page _ _
            (λ fetched.
              Option_ind IsLive (lookup r.key s.page_cache) _ _
                (λ _.
                  Option_ind IsLive r.api_path _ _
                    (λ never. absurd (no_api source fine fetched never))
                    (λ path _. load_page-IsLive r.key path _ here location booked))
                (λ page _. stopped-IsLive s _ refl here location booked))
            (λ page _. stopped-IsLive s _ refl here location booked))
        (λ message _. stopped-IsLive s _ refl here location booked)

  commit-IsLive : (s : Spa) → IsLive s → IsLive (commit u s)
  unfolding commit
  commit-IsLive s h =
      if_ind IsLive (same_deps u s.ran_with (deps_now u s)) s
        (run_effect u (route_at u s.location_state) (begun u s)) (λ _. h)
        (λ _.
          run_effect-IsLive (route_at u s.location_state) (begun u s) (resolve_route-Source u _ _)
            h.here h.location h.booked)

  IsLive-frame : IsFrame IsLive
  IsLive-frame = record {
    moved = λ here at history scrolls assigned s hh ha h. record {
      here = hh;
      location = ha;
      booked = h.booked;
      waits = h.waits;
    };
    erased = λ key token s h. record {
      here = h.here;
      location = h.location;
      booked = h.booked;
      waits = h.waits;
    };
    here = λ s h. h.here;
    at = λ s h. h.location;
  }

  initial-IsLive : (origin : Text) (l : Location) → IsLocation l → IsLive (initial u origin l)
  unfolding initial
  initial-IsLive origin l h = record {
    here = h;
    location = h;
    booked = record {
      pending_out = λ name n found. absurd (no_entry name found);
      below = λ n name out. absurd out;
      named_once = λ n a b out _. absurd out;
    };
    waits = λ ran _. absurd (ran refl);
  }

  Step-IsLive : {s t : Spa} → Step u s t → IsLive s → IsLive t
  Step-IsLive {s} (navigates l o hl) h = navigate_keeps u IsLive-frame l o s hl h
  Step-IsLive {s} (navigates_url url o hl) h = navigate_url_keeps u IsLive-frame url o s hl h
  Step-IsLive {s} (clicks c hl) h = handle_click_keeps u IsLive-frame c s hl h
  Step-IsLive {s} (pops l hl) h = pop_state_keeps u IsLive-frame l s hl h
  Step-IsLive {s} (refreshes rendered) h = refresh_keeps u IsLive-frame rendered s h
  Step-IsLive {s} (mutates rendered r hl) h = mutation_keeps u IsLive-frame rendered r s hl h
  Step-IsLive {s} renders h = commit-IsLive s h
  Step-IsLive {s} (settles n name result out) h = settle-IsLive n name result s out h

  pub Reach-IsLive : {s : Spa} → Reach u s → IsLive s
  Reach-IsLive (opened origin l h) = initial-IsLive origin l h
  Reach-IsLive (next r step) = Step-IsLive step (Reach-IsLive r)
