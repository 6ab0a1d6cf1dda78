-- ===== src/Charts/Chart.antt =====
-- `EChart` of web/frontend/src/common.tsx. React runs the effect of a mounted component and its cleanup in
-- turns; the import of the library that a run of the effect waits for ends at any time.
pub mod Leaks
use go_resolver.Base.{
  ℕ, ◌+◌, ◌≡◌, Bool, true, false, not, ◌&&◌, ◌||◌, Option, none, some, List, [], ◌∷◌, In, ◌==◌,
  if◌then◌else◌,
}

-- `run` counts the runs of the mount effect, and `active` is the variable of the last one: those of
-- the runs before it are false. `waiting` are the runs whose import has not ended. An instance is named
-- by the run that makes it: `instance_ref` is `instanceRef.current`, `live` are those that are not
-- disposed, `listening` those with a listener of the window, and `disposes` is what the variable
-- `cleanup` of the last run takes away. `drawn` is the option that the instance shows. Options are of
-- any type.
pub record Chart (O : Type 0) : Type 0 where
  pub element : Bool
  pub run : ℕ
  pub active : Bool
  pub waiting : List ℕ
  pub instance_ref : Option ℕ
  pub live : List ℕ
  pub listening : List ℕ
  pub disposes : Option ℕ
  pub option_ref : O
  pub drawn : Option O

abbrev pub has_some {ℓ} : {A : Type ℓ} → Option A → Bool
has_some none = false
has_some (some _) = true

unfoldable pub without : ℕ → List ℕ → List ℕ
without n [] = []
without n (m ∷ ms) = let rest = without n ms in if m == n then rest else m ∷ rest

module _ {O : Type 0} where
  -- Before the first effects.
  unfoldable pub fresh_chart : O → Chart O
  fresh_chart option = record {
    element = false;
    run = 0;
    active = false;
    waiting = [];
    instance_ref = none;
    live = [];
    listening = [];
    disposes = none;
    option_ref = option;
    drawn = none;
  }

  -- The effect of `[option]`.
  unfoldable pub set_option : O → Chart O → Chart O
  set_option option s = record s {
    option_ref = option;
    drawn = if has_some s.instance_ref then some option else s.drawn;
  }

  -- The mount effect: `init` goes on to the import unless there is an instance.
  unfoldable pub mount : Chart O → Chart O
  mount s = record s {
    element = true;
    run = s.run + 1;
    active = true;
    disposes = none;
    waiting = if has_some s.instance_ref then s.waiting else (s.run + 1) ∷ s.waiting;
  }

  -- `echarts.init`, `setOption` and the listener.
  unfoldable pub make_instance : ℕ → Chart O → Chart O
  make_instance n s = record s {
    instance_ref = some n;
    live = n ∷ s.live;
    listening = n ∷ s.listening;
    disposes = some n;
    drawn = some s.option_ref;
  }

  -- The rest of `init` of the run `n`, when the library is there.
  unfoldable pub imported : ℕ → Chart O → Chart O
  unfolding make_instance without
  imported n s =
      let t = record s { waiting = without n s.waiting } in
      if not ((n == s.run) && s.active) || not s.element || has_some s.instance_ref
      then t
      else make_instance n t

  -- What `cleanup` of the last run has become; it is called once.
  unfoldable pub dispose : Option ℕ → Chart O → Chart O
  unfolding without
  dispose none s = s
  dispose (some n) s = record s {
    listening = without n s.listening;
    live = without n s.live;
    instance_ref = none;
    drawn = none;
    disposes = none;
  }

  -- The cleanup of the mount effect; the element goes unless React only checks the effects.
  unfoldable pub unmount : Bool → Chart O → Chart O
  unfolding dispose
  unmount keeps s = dispose s.disposes (record s { active = false; element = keeps })

  -- What happens to a chart.
  pub data Lives (option : O) : Chart O → Type 0 where
    starts : Lives option (fresh_chart option)
    mounts : {s : Chart O} → Lives option s → s.active ≡ false → Lives option (mount s)
    changes : {s : Chart O} → Lives option s → (next : O) → Lives option (set_option next s)
    imports :
        {s : Chart O} → Lives option s → (n : ℕ) → In n s.waiting → Lives option (imported n s)
    unmounts :
        {s : Chart O}
        → Lives option s
        → (keeps : Bool) → s.active ≡ true
        → Lives option (unmount keeps s)
