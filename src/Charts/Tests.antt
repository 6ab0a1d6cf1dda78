-- ===== src/Charts/Tests.antt =====
-- Runs of a chart and a map, and the theorems at their states.
use go_resolver.Base.{ℕ, ◌≡◌, refl, inl, inr, true, false, none, some, List, [], ◌∷◌, codes, ◌===◌}
use go_resolver.Charts.Chart.{
  Chart, fresh_chart, without, set_option, mount, imported, unmount, Lives, starts, mounts, changes,
  imports, unmounts,
}
use go_resolver.Charts.Chart.Leaks.{IsTidy, Lives-IsTidy}
use go_resolver.Charts.Map.{
  Point, label, markers_of, MapCard, fresh_map, set_points, start_map, mount_map, map_imported,
  MapLives, opens, mounts, moves, imports,
}
use go_resolver.Charts.Map.Drawn.{IsDrawn, MapLives-IsDrawn}

running : Unit {0}
unfolding fresh_chart without set_option mount imported unmount fresh_map set_points start_map
    mount_map map_imported label markers_of ◌===◌
running = tt

-- Mounted, checked by React, mounted again; then both imports end and the option changes.
abbrev twice : Chart ℕ
twice = mount (unmount true (mount (fresh_chart 5)))

abbrev chart : Chart ℕ
chart = set_option 6 (imported 2 (imported 1 twice))

chart_tests :
    (chart.live ≡ 2 ∷ [])
    × (chart.drawn ≡ some 6)
    × ((unmount false chart).live ≡ [])
    × ((unmount false chart).listening ≡ [])
unfolding running
chart_tests = (refl, refl, refl, refl)

chart-Lives : Lives 5 chart
unfolding running
chart-Lives =
    changes
      (imports (imports (mounts (unmounts (mounts starts refl) true refl) refl) 1 (inr (inl refl)))
        2 (inl refl))
      6

Lives-IsTidy_example : IsTidy chart
Lives-IsTidy_example = Lives-IsTidy 5 chart chart-Lives

abbrev place : Point ℕ
place = record {
  ip = codes "10.0.0.1";
  city = codes "Bern";
  region = [];
  country = codes "CH";
  lat = some 47;
  lon = some 7;
}

abbrev places : List (Point ℕ)
places = place ∷ record place { lon = none } ∷ []

label_tests :
    (label place ≡ codes "10.0.0.1 - Bern, CH")
    × (markers_of places ≡ record { at = (47, 7); popup = codes "10.0.0.1 - Bern, CH" } ∷ [])
unfolding running
label_tests = (refl, refl)

abbrev map_card : MapCard ℕ
map_card = set_points places (map_imported 1 (mount_map (fresh_map [])))

map-MapLives : MapLives [] map_card
unfolding running
map-MapLives = moves (imports (mounts opens refl) 1 (inl refl)) refl places

MapLives-IsDrawn_example : IsDrawn map_card
MapLives-IsDrawn_example = MapLives-IsDrawn [] map_card map-MapLives
