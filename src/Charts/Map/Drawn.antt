-- ===== src/Charts/Map/Drawn.antt =====
-- A map card has one map at most, which shows the markers of its points or nothing.
use go_resolver.Base.{
  ℕ, ◌+◌, ◌≡◌, ◌⊎◌, inl, inr, refl, ap, ◌∙◌, arith, Bool, true, false, not, ◌&&◌, ◌||◌, Option,
  none, some, List, [], ◌∷◌, ◌==◌, if_ind,
}
use go_resolver.Charts.Chart.{has_some}
use go_resolver.Charts.Chart.Leaks.{held, no_instance, and_right, without-one}
use go_resolver.Charts.Map.{
  Point, markers_of, MapCard, fresh_map, set_points, start_map, mount_map, map_imported, remove_map,
  unmount_map, MapLives, opens, mounts, moves, imports, unmounts,
}

none_or_some : {A : Type 0} (o : Option A) → has_some o ≡ false → o ≡ none
none_or_some none h = refl
none_or_some (some _) h = absurd (cc)

not_none : {A : Type 0} (o : Option A) → has_some o ≡ true → o ≡ none → has_some o ≡ false
not_none o h e = ap has_some e

remove_map-held : (r : Option ℕ) → remove_map r (held r) ≡ []
unfolding remove_map
remove_map-held none = refl
remove_map-held (some n) = without-one n

same : (n : ℕ) → (n == n) ≡ true
same n = ground arith

module _ {N : Type 0} where
  pub record IsDrawn (s : MapCard N) : Type 0 where
    pub maps : s.maps ≡ held s.map_ref
    pub markers : (s.markers ≡ []) ⊎ (s.markers ≡ markers_of s.points)
    pub without_map : s.map_ref ≡ none → s.markers ≡ []
    pub inactive : s.active ≡ false → s.map_ref ≡ none

  set_points-IsDrawn :
      (points : List (Point N)) (s : MapCard N) → IsDrawn s → IsDrawn (set_points points s)
  unfolding set_points
  set_points-IsDrawn points s h =
      if_ind IsDrawn (has_some s.map_ref) _ _
        (λ e. record {
          maps = h.maps;
          markers = inr refl;
          without_map = λ n. absurd (let k = not_none s.map_ref e n in cc);
          inactive = h.inactive;
        })
        (λ e. record {
          maps = h.maps;
          markers = inl (h.without_map (none_or_some s.map_ref e));
          without_map = h.without_map;
          inactive = h.inactive;
        })

  mount_map-IsDrawn : (s : MapCard N) → IsDrawn s → IsDrawn (mount_map s)
  unfolding mount_map start_map
  mount_map-IsDrawn s h = set_points-IsDrawn s.points (start_map s) record {
    maps = h.maps;
    markers = h.markers;
    without_map = h.without_map;
    inactive = λ e. absurd (cc);
  }

  map_imported-IsDrawn : (n : ℕ) (s : MapCard N) → IsDrawn s → IsDrawn (map_imported n s)
  unfolding map_imported
  map_imported-IsDrawn n s h =
      if_ind IsDrawn (not ((n == s.run) && s.active) || not s.element || has_some s.map_ref) _ _
        (λ _. record {
          maps = h.maps;
          markers = h.markers;
          without_map = h.without_map;
          inactive = h.inactive;
        })
        (λ e.
          let free = no_instance ((n == s.run) && s.active) s.element s.map_ref e in
          let on = and_right (n == s.run) s.active free.1 in
          record {
            maps = ap (λ l. n ∷ l) (h.maps ∙ ap held free.0);
            markers = inl refl;
            without_map = λ k. refl;
            inactive = λ k. absurd (cc);
          })

  unmount_map-IsDrawn : (keeps : Bool) (s : MapCard N) → IsDrawn s → IsDrawn (unmount_map keeps s)
  unfolding unmount_map
  unmount_map-IsDrawn keeps s h = record {
    maps = ap (remove_map s.map_ref) h.maps ∙ remove_map-held s.map_ref;
    markers = inl refl;
    without_map = λ _. refl;
    inactive = λ _. refl;
  }

  -- In every state of a map card, the map that it refers to is the only one that is not removed, it
  -- shows the markers of the last points or none, and a card that is not mounted has no map.
  pub MapLives-IsDrawn : (points : List (Point N)) (s : MapCard N) → MapLives points s → IsDrawn s
  unfolding fresh_map
  MapLives-IsDrawn points _ opens = record {
    maps = refl;
    markers = inl refl;
    without_map = λ _. refl;
    inactive = λ _. refl;
  }
  MapLives-IsDrawn points _ (mounts {s} l _) = mount_map-IsDrawn s (MapLives-IsDrawn points s l)
  MapLives-IsDrawn points _ (moves {s} l _ next) =
      set_points-IsDrawn next s (MapLives-IsDrawn points s l)
  MapLives-IsDrawn points _ (imports {s} l n _) =
      map_imported-IsDrawn n s (MapLives-IsDrawn points s l)
  MapLives-IsDrawn points _ (unmounts {s} l keeps _) =
      unmount_map-IsDrawn keeps s (MapLives-IsDrawn points s l)

  -- A card that is mounted in one of its states, and whose library arrives after that, has a map that
  -- shows no marker, whatever its points.
  late_map :
      (points : List (Point N)) (s : MapCard N)
      → MapLives points s
      → s.active ≡ false
      → let t = map_imported (s.run + 1) (mount_map s) in
        (t.map_ref ≡ some (s.run + 1)) × (t.points ≡ s.points) × (t.markers ≡ [])
  unfolding mount_map start_map set_points map_imported
  late_map points s l off =
      let h = MapLives-IsDrawn points s l in
      rw (h.inactive off, same (s.run + 1)) (refl, refl, refl)
