-- ===== src/Analytics/Hosts.antt =====
-- The effect of `AnalyticsPageView` that loads the hosts when the page is mounted, `loadHosts` of
-- web/frontend/src/pages/analytics-page.tsx. In the development mode of React a page is mounted twice.
mod Loaded
use go_resolver.Base.{
  Text, ℕ, suc, Bool, true, false, ◌&&◌, Option, none, some, List, [], ◌∷◌, In, ◌==◌, ◌≡◌,
  if◌then◌else◌,
}
use go_resolver.Analytics.Profile.{Ending, answered, failed, drop_request}

-- The runs of the effect are counted, and the last one is not cancelled while the page is mounted. `hosts`
-- is the run whose answer is shown, `pending` the runs whose request has not ended, and `alerts` the
-- messages, each with its run.
pub record Hosts : Type 0 where
  pub run : ℕ
  pub active : Bool
  pub pending : List ℕ
  pub hosts : Option ℕ
  pub alerts : List (ℕ × Text)

abbrev pub no_hosts : Hosts
no_hosts = record { run = 0; active = false; pending = []; hosts = none; alerts = [] }

-- The effect.
unfoldable pub mount_hosts : Hosts → Hosts
mount_hosts s = record s { run = suc s.run; active = true; pending = suc s.run ∷ s.pending }

-- Its cleanup.
abbrev pub unmount_hosts : Hosts → Hosts
unmount_hosts s = record s { active = false }

-- What the request of a run that is not cancelled makes.
abbrev pub show_ending : ℕ → Ending → Hosts → Hosts
show_ending n answered s = record s { hosts = some n }
show_ending n (failed message) s = record s { alerts = (n, message) ∷ s.alerts }

-- The request of the run `n` ends.
unfoldable pub end_hosts : ℕ → Ending → Hosts → Hosts
unfolding drop_request
end_hosts n ending s =
    let left = record s { pending = drop_request n s.pending } in
    if (n == s.run) && s.active then show_ending n ending left else left

-- The states of the page.
pub data HostsLives : Hosts → Type 0 where
  fresh : HostsLives no_hosts
  mounts : {s : Hosts} → s.active ≡ false → HostsLives s → HostsLives (mount_hosts s)
  unmounts : {s : Hosts} → HostsLives s → HostsLives (unmount_hosts s)
  ends :
      {s : Hosts} (n : ℕ) (ending : Ending)
      → In n s.pending
      → HostsLives s
      → HostsLives (end_hosts n ending s)
