-- ===== src/Analytics/Loading.antt =====
-- The effect of `AnalyticsPageView` that loads everything, with its cleanup, and its refresh timer.
-- `Promise.all` of the five requests is one load, that succeeds or fails at some time.
pub mod Latest
use go_resolver.Base.{
  Text, ℕ, ◌+◌, Bool, true, false, not, Option, none, some, List, [], ◌∷◌, In, ◌==◌, if◌then◌else◌,
}

-- `loads` are the calls of `loadEverything` that have not ended: the run of the effect, and whether
-- its cleanup has set `cancelled` and aborted its requests. `shown` is the run whose data is shown.
pub record Loader : Type 0 where
  pub in_flight : Bool
  pub loading : Bool
  pub reload_token : ℕ
  pub run : ℕ
  pub loads : List (ℕ × Bool)
  pub shown : Option ℕ
  pub alerts : List Text

-- The page when it opens, before the effect has run.
unfoldable pub opened_analytics : Loader
opened_analytics = record {
  in_flight = false;
  loading = true;
  reload_token = 0;
  run = 0;
  loads = [];
  shown = none;
  alerts = [];
}

-- The cleanup of a run.
unfoldable pub cancel_run : ℕ → List (ℕ × Bool) → List (ℕ × Bool)
cancel_run run [] = []
cancel_run run ((n, c) ∷ loads) = (n, if n == run then true else c) ∷ cancel_run run loads

-- The effect when a dependency has changed: the cleanup of the last run, and a new load.
unfoldable pub load_everything : Loader → Loader
unfolding cancel_run
load_everything s = record s {
  in_flight = true;
  loading = true;
  run = s.run + 1;
  loads = (s.run + 1, false) ∷ cancel_run s.run s.loads;
}

unfoldable pub end_run : ℕ → List (ℕ × Bool) → List (ℕ × Bool)
end_run run [] = []
end_run run ((n, c) ∷ loads) =
    let rest = end_run run loads in if n == run then rest else (n, c) ∷ rest

-- What comes of a load: its data, or the message of an error.
pub data Outcome : Type 0 where
  loaded : Outcome
  failed : Text → Outcome

-- The body of `try` or of `catch`, after the requests.
unfoldable pub take_outcome : ℕ → Outcome → Loader → Loader
take_outcome run loaded s = record s { shown = some run }
take_outcome run (failed message) s = record s { alerts = message ∷ s.alerts }

-- The end of a load: both bodies do nothing if it is cancelled, and then `finally`.
unfoldable pub finish_load : ℕ → Bool → Outcome → Loader → Loader
unfolding end_run take_outcome
finish_load run cancelled outcome s =
    let t = if cancelled then s else take_outcome run outcome s in
    record t {
      in_flight = false;
      loading = if not cancelled then false else t.loading;
      loads = end_run run t.loads;
    }

-- The timer of the refresh interval.
unfoldable pub refresh_tick : Loader → Loader
refresh_tick s = if not s.in_flight then record s { reload_token = s.reload_token + 1 } else s

-- The button "Refresh", and every other callback that raises the token.
unfoldable pub reload : Loader → Loader
reload s = record s { reload_token = s.reload_token + 1 }

-- The runs of the page; the effect runs whenever its dependencies, the token among them, change.
pub data Runs : Loader → Type 0 where
  opens : Runs opened_analytics
  loads : {s : Loader} → Runs s → Runs (load_everything s)
  finishes :
      {s : Loader}
      → Runs s
      → (run : ℕ) (cancelled : Bool) (outcome : Outcome) → In (run, cancelled) s.loads
      → Runs (finish_load run cancelled outcome s)
  ticks : {s : Loader} → Runs s → Runs (refresh_tick s)
  reloads : {s : Loader} → Runs s → Runs (reload s)
