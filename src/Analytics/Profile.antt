-- ===== src/Analytics/Profile.antt =====
-- The callbacks of `AnalyticsPageView` that send a request of their own: `openIPProfile`, which shows
-- what comes back, and `dismissIncident` and `deleteHistoryIncident`, which reload the page.
pub mod Waiting
use go_resolver.Base.{
  Text, ℕ, ◌+◌, Bool, true, false, not, ◌||◌, Option, none, some, List, [], ◌∷◌, ◌++◌, In, ◌==◌,
  codes, length, truthy, if◌then◌else◌,
}
use go_resolver.Analytics.Callbacks.{Incident}

-- The dialog of a profile and its requests: `asked` are their URLs, and a request is named by its place
-- in that list; `pending` are those that have not ended. `active_profile` is the request whose answer
-- is shown.
pub record Profiles : Type 0 where
  pub profile_loading : Bool
  pub profile_opened : Bool
  pub active_profile : Option ℕ
  pub asked : List Text
  pub pending : List ℕ
  pub alerts : List Text

unfoldable pub no_profiles : Profiles
no_profiles = record {
  profile_loading = false;
  profile_opened = false;
  active_profile = none;
  asked = [];
  pending = [];
  alerts = [];
}

-- `openIPProfile` up to its request, for the URL of the profile.
unfoldable pub open_ip_profile : Text → Profiles → Profiles
open_ip_profile url s = record s {
  profile_loading = true;
  profile_opened = true;
  asked = s.asked ++ url ∷ [];
  pending = length s.asked ∷ s.pending;
}

-- What comes of a request: an answer, or the message of an error.
pub data Ending : Type 0 where
  answered : Ending
  failed : Text → Ending

unfoldable pub drop_request : ℕ → List ℕ → List ℕ
drop_request n [] = []
drop_request n (m ∷ ms) = let rest = drop_request n ms in if m == n then rest else m ∷ rest

-- The body behind the request `n`: `try` or `catch`, and then `finally`.
unfoldable pub end_ip_profile : ℕ → Ending → Profiles → Profiles
unfolding drop_request
end_ip_profile n answered s = record s {
  active_profile = some n;
  profile_loading = false;
  pending = drop_request n s.pending;
}
end_ip_profile n (failed message) s = record s {
  alerts = message ∷ s.alerts;
  profile_opened = false;
  profile_loading = false;
  pending = drop_request n s.pending;
}

-- The button that closes the dialog.
unfoldable pub close_profile : Profiles → Profiles
close_profile s = record s { profile_opened = false }

pub data Viewing : Profiles → Type 0 where
  starts : Viewing no_profiles
  asks : {s : Profiles} → Viewing s → (url : Text) → Viewing (open_ip_profile url s)
  ends :
      {s : Profiles}
      → Viewing s
      → (n : ℕ) (e : Ending) → In n s.pending
      → Viewing (end_ip_profile n e s)
  closes : {s : Profiles} → Viewing s → Viewing (close_profile s)

-- A request that changes an incident: its method and its path.
pub record IncidentRequest : Type 0 where
  pub method : Text
  pub path : Text

-- `dismissIncident` and `deleteHistoryIncident` up to their requests; the user has confirmed or not.
unfoldable pub dismiss_incident : Bool → Incident → Option IncidentRequest
dismiss_incident confirmed i =
    if not (truthy i.id) || not confirmed
    then none
    else some record {
      method = codes "POST";
      path = codes "/api/analytics/incidents/" ++ i.id ++ codes "/dismiss";
    }

unfoldable pub delete_history_incident : Bool → Incident → Option IncidentRequest
delete_history_incident confirmed i =
    if not (truthy i.id) || not confirmed
    then none
    else some record { method = codes "DELETE"; path = codes "/api/analytics/incidents/" ++ i.id }
