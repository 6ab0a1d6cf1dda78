-- ===== src/Analytics/Callbacks/Incidents.antt =====
-- The active incidents and the history are the incidents, split by their status.
use go_resolver.Base.{◌≡◌, inl, inr, Bool-cases, true, false, List, [], ◌∷◌}
use go_resolver.Analytics.Callbacks.{Incident, is_open, active_incidents, incident_history}

-- Two lists that hold the incidents of a third, each one once.
pub data Split : List Incident → List Incident → List Incident → Type 0 where
  none_left : Split [] [] []
  to_active :
      {i : Incident} {is fresh hs : List Incident}
      → is_open i ≡ true
      → Split is fresh hs
      → Split (i ∷ is) (i ∷ fresh) hs
  to_history :
      {i : Incident} {is fresh hs : List Incident}
      → is_open i ≡ false
      → Split is fresh hs
      → Split (i ∷ is) fresh (i ∷ hs)

-- Every incident is shown once, in its order: under the active ones if it is open, otherwise in the
-- history.
incidents-Split : (is : List Incident) → Split is (active_incidents is) (incident_history is)
unfolding active_incidents incident_history
incidents-Split [] = none_left
incidents-Split (i ∷ is) = elim (Bool-cases (is_open i)) [
  | inl opened ↦
      rw (opened, active_incidents, incident_history) (to_active opened (incidents-Split is))
  | inr closed ↦
      rw (closed, active_incidents, incident_history) (to_history closed (incidents-Split is))
]
