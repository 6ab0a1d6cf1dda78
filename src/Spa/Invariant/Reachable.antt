-- ===== src/Spa/Invariant/Reachable.antt =====
-- The invariant holds in every state that the page can reach.
use go_resolver.Base.{Text, Bindings-erase}
use go_resolver.Base.Url.{UrlParams}
use go_resolver.Spa.{Location, Spa, initial}
use go_resolver.Spa.Steps.{
  IsLocation, Step, navigates, navigates_url, clicks, pops, refreshes, mutates, renders, settles,
  Reach, opened, next,
}
use go_resolver.Spa.Invariant.{IsCoherent}
use go_resolver.Spa.Quiet.{
  IsFrame, navigate_keeps, navigate_url_keeps, handle_click_keeps, pop_state_keeps, refresh_keeps,
  mutation_keeps,
}
use go_resolver.Spa.Invariant.Settling.{settle-IsCoherent}
use go_resolver.Spa.Invariant.Rendering.{commit-IsCoherent}

module _ (u : UrlParams) where
  pub initial-IsCoherent :
      (origin : Text) (l : Location) → IsLocation l → IsCoherent u (initial u origin l)
  unfolding initial
  initial-IsCoherent origin l h = record {
    here = h;
    location = h;
    ran = tt;
    cache = tt;
    pending = tt;
    asked = tt;
    current = tt;
    shown = tt;
  }

  pub IsCoherent-frame : IsFrame (IsCoherent u)
  IsCoherent-frame = record {
    moved = λ here at history scrolls assigned s hh ha h. record {
      here = hh;
      location = ha;
      ran = h.ran;
      cache = h.cache;
      pending = h.pending;
      asked = h.asked;
      current = h.current;
      shown = h.shown;
    };
    erased = λ key token s h. record {
      here = h.here;
      location = h.location;
      ran = h.ran;
      cache = Bindings-erase _ key s.page_cache h.cache;
      pending = h.pending;
      asked = h.asked;
      current = h.current;
      shown = h.shown;
    };
    here = λ s h. h.here;
    at = λ s h. h.location;
  }

  -- Every event and every render keeps the invariant.
  pub Step-IsCoherent : {s t : Spa} → Step u s t → IsCoherent u s → IsCoherent u t
  Step-IsCoherent {s} (navigates l o hl) h = navigate_keeps u IsCoherent-frame l o s hl h
  Step-IsCoherent {s} (navigates_url url o hl) h =
      navigate_url_keeps u IsCoherent-frame url o s hl h
  Step-IsCoherent {s} (clicks c hl) h = handle_click_keeps u IsCoherent-frame c s hl h
  Step-IsCoherent {s} (pops l hl) h = pop_state_keeps u IsCoherent-frame l s hl h
  Step-IsCoherent {s} (refreshes rendered) h = refresh_keeps u IsCoherent-frame rendered s h
  Step-IsCoherent {s} (mutates rendered r hl) h =
      mutation_keeps u IsCoherent-frame rendered r s hl h
  Step-IsCoherent {s} renders h = commit-IsCoherent u s h
  Step-IsCoherent {s} (settles n name result out) h = settle-IsCoherent u n name result s h

  pub Reach-IsCoherent : {s : Spa} → Reach u s → IsCoherent u s
  Reach-IsCoherent (opened origin l h) = initial-IsCoherent origin l h
  Reach-IsCoherent (next r step) = Step-IsCoherent step (Reach-IsCoherent r)
