-- ===== src/Charts/Map.antt =====
-- `MapCard` of web/frontend/src/common.tsx: the import of the library, the markers of the points, and
-- what they are labelled with.
pub mod Drawn
use go_resolver.Base.{
  Text, ℕ, ◌+◌, ◌≡◌, Bool, true, false, not, ◌&&◌, ◌||◌, Option, none, some, List, [], ◌∷◌, ◌++◌,
  In, ◌==◌, ◌===◌, codes, if◌then◌else◌,
}
use go_resolver.Charts.Chart.{has_some, without}

-- A point of the page. Coordinates are of any type: `none` stands for a value that is not a number.
pub record Point (N : Type 0) : Type 0 where
  pub ip : Text
  pub city : Text
  pub region : Text
  pub country : Text
  pub lat : Option N
  pub lon : Option N

-- `[…].filter(Boolean)`
unfoldable pub non_empty : List Text → List Text
non_empty [] = []
non_empty (t ∷ ts) = let rest = non_empty ts in if t === [] then rest else t ∷ rest

-- `join(", ")`
unfoldable pub join_comma : List Text → Text
join_comma [] = []
join_comma (t ∷ []) = t
join_comma (t ∷ u ∷ ts) = t ++ codes ", " ++ join_comma (u ∷ ts)

-- The text of a marker's popup.
unfoldable pub label : {N : Type 0} → Point N → Text
unfolding non_empty join_comma
label p =
    p.ip
    ++ (if not (p.city === []) || not (p.region === []) || not (p.country === [])
        then codes " - " ++ join_comma (non_empty (p.city ∷ p.region ∷ p.country ∷ []))
        else [])

pub record Marker (N : Type 0) : Type 0 where
  pub at : N × N
  pub popup : Text

-- The markers of the points that have both coordinates.
unfoldable pub markers_of : {N : Type 0} → List (Point N) → List (Marker N)
unfolding label
markers_of [] = []
markers_of (p ∷ ps) =
    let rest = markers_of ps in
    elim p.lat [
      | none ↦ rest
      | some lat ↦ elim p.lon [
        | none ↦ rest
        | some lon ↦ record { at = (lat, lon); popup = label p } ∷ rest
      ]
    ]

-- `run`, `active` and `waiting` are as for a chart. `map_ref` is `mapRef.current`, which is set and
-- cleared together with the layer and the library, and `maps` are the maps that are not removed.
-- `markers` are those of the layer, and `bounds` what the view was fitted to last.
pub record MapCard (N : Type 0) : Type 0 where
  pub element : Bool
  pub run : ℕ
  pub active : Bool
  pub waiting : List ℕ
  pub map_ref : Option ℕ
  pub maps : List ℕ
  pub points : List (Point N)
  pub markers : List (Marker N)
  pub bounds : List (N × N)

-- `mapRef.current?.remove()`
unfoldable pub remove_map : Option ℕ → List ℕ → List ℕ
unfolding without
remove_map none maps = maps
remove_map (some n) maps = without n maps

module _ {N : Type 0} where
  unfoldable pub fresh_map : List (Point N) → MapCard N
  fresh_map points = record {
    element = false;
    run = 0;
    active = false;
    waiting = [];
    map_ref = none;
    maps = [];
    points = points;
    markers = [];
    bounds = [];
  }

  unfoldable pub positions : List (Marker N) → List (N × N)
  positions [] = []
  positions (m ∷ ms) = m.at ∷ positions ms

  -- `if (bounds.length > 0) mapRef.current.fitBounds(bounds)`
  unfoldable pub fit_bounds : List (N × N) → List (N × N) → List (N × N)
  fit_bounds [] old = old
  fit_bounds (b ∷ bs) old = b ∷ bs

  -- The effect of `[points]`.
  unfoldable pub set_points : List (Point N) → MapCard N → MapCard N
  unfolding markers_of positions fit_bounds
  set_points points s =
      if has_some s.map_ref
      then record s {
        points = points;
        markers = markers_of points;
        bounds = fit_bounds (positions (markers_of points)) s.bounds;
      }
      else record s { points = points }

  -- The mount effect: `init` goes on to the import unless there is a map.
  unfoldable pub start_map : MapCard N → MapCard N
  start_map s = record s {
    element = true;
    run = s.run + 1;
    active = true;
    waiting = if has_some s.map_ref then s.waiting else (s.run + 1) ∷ s.waiting;
  }

  -- The mount effect, and the effect of `[points]` that follows it.
  unfoldable pub mount_map : MapCard N → MapCard N
  unfolding start_map set_points
  mount_map s = set_points s.points (start_map s)

  -- The rest of `init` of the run `n`, when the library is there: a map with an empty layer.
  unfoldable pub map_imported : ℕ → MapCard N → MapCard N
  unfolding without
  map_imported n s =
      let t = record s { waiting = without n s.waiting } in
      if not ((n == s.run) && s.active) || not s.element || has_some s.map_ref
      then t
      else record t { map_ref = some n; maps = n ∷ s.maps; markers = []; bounds = [] }

  -- The cleanup of the mount effect.
  unfoldable pub unmount_map : Bool → MapCard N → MapCard N
  unfolding remove_map
  unmount_map keeps s = record s {
    active = false;
    element = keeps;
    maps = remove_map s.map_ref s.maps;
    map_ref = none;
    markers = [];
    bounds = [];
  }

  -- What happens to a map.
  pub data MapLives (points : List (Point N)) : MapCard N → Type 0 where
    opens : MapLives points (fresh_map points)
    mounts : {s : MapCard N} → MapLives points s → s.active ≡ false → MapLives points (mount_map s)
    moves :
        {s : MapCard N}
        → MapLives points s
        → s.active ≡ true
        → (next : List (Point N)) → MapLives points (set_points next s)
    imports :
        {s : MapCard N}
        → MapLives points s
        → (n : ℕ) → In n s.waiting
        → MapLives points (map_imported n s)
    unmounts :
        {s : MapCard N}
        → MapLives points s
        → (keeps : Bool) → s.active ≡ true
        → MapLives points (unmount_map keeps s)
