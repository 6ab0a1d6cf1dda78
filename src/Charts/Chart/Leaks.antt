-- ===== src/Charts/Chart/Leaks.antt =====
-- A chart leaves nothing behind, has one instance at most, and shows its last option.
use go_resolver.Base.{
  ℕ, ◌≡◌, ◌≢◌, ◌⊎◌, subst, refl, sym, ap, ◌∙◌, arith, Bool, inl, inr, true, false, not, ◌&&◌, ◌||◌,
  Option, none, some, List, [], ◌∷◌, ◌==◌, if◌then◌else◌, if_ind,
}
use go_resolver.Charts.Chart.{
  Chart, fresh_chart, has_some, without, set_option, mount, make_instance, imported, dispose,
  unmount, Lives, starts, mounts, changes, imports, unmounts,
}

-- The instances that a reference stands for.
abbrev pub held : Option ℕ → List ℕ
held none = []
held (some n) = n ∷ []

pub no_instance :
    (a b : Bool) (i : Option ℕ) → (not a || not b || has_some i) ≡ false → (i ≡ none) × (a ≡ true)
no_instance a b none h = (refl, ground arith)
no_instance a b (some n) h = absurd (ground arith)

pub and_right : (a b : Bool) → (a && b) ≡ true → b ≡ true
and_right a b h = ground arith

pub without-one : (n : ℕ) → without n (n ∷ []) ≡ []
unfolding without
without-one n = ground arith

module _ {O : Type 0} where
  -- What an instance shows, if there is one.
  abbrev pub shown : Option ℕ → O → Option O
  shown none _ = none
  shown (some _) option = some option

  pub record IsTidy (s : Chart O) : Type 0 where
    pub live : s.live ≡ held s.instance_ref
    pub listening : s.listening ≡ held s.instance_ref
    pub disposes : s.disposes ≡ s.instance_ref
    pub drawn : s.drawn ≡ shown s.instance_ref s.option_ref
    pub inactive : s.active ≡ false → s.instance_ref ≡ none

  set_option-shown :
      (i : Option ℕ) (next old : O) (drawn : Option O)
      → drawn ≡ shown i old
      → (if has_some i then some next else drawn) ≡ shown i next
  set_option-shown none next old drawn h = h
  set_option-shown (some _) next old drawn h = refl

  set_option-IsTidy : (next : O) (s : Chart O) → IsTidy s → IsTidy (set_option next s)
  unfolding set_option
  set_option-IsTidy next s h = record {
    live = h.live;
    listening = h.listening;
    disposes = h.disposes;
    drawn = set_option-shown s.instance_ref next s.option_ref s.drawn h.drawn;
    inactive = h.inactive;
  }

  mount-IsTidy : (s : Chart O) → IsTidy s → s.active ≡ false → IsTidy (mount s)
  unfolding mount
  mount-IsTidy s h e = record {
    live = h.live;
    listening = h.listening;
    disposes = sym (h.inactive e);
    drawn = h.drawn;
    inactive = λ k. absurd (cc);
  }

  imported-IsTidy : (n : ℕ) (s : Chart O) → IsTidy s → IsTidy (imported n s)
  unfolding imported make_instance
  imported-IsTidy n s h =
      if_ind IsTidy (not ((n == s.run) && s.active) || not s.element || has_some s.instance_ref) _ _
        (λ _. record {
          live = h.live;
          listening = h.listening;
          disposes = h.disposes;
          drawn = h.drawn;
          inactive = h.inactive;
        })
        (λ e.
          let free = no_instance ((n == s.run) && s.active) s.element s.instance_ref e in
          let on = and_right (n == s.run) s.active free.1 in
          record {
            live = ap (λ l. n ∷ l) (h.live ∙ ap held free.0);
            listening = ap (λ l. n ∷ l) (h.listening ∙ ap held free.0);
            disposes = refl;
            drawn = refl;
            inactive = λ k. absurd (cc);
          })

  dispose-IsTidy :
      (i : Option ℕ) (t : Chart O)
      → t.live ≡ held i
      → t.listening ≡ held i
      → t.disposes ≡ i
      → t.instance_ref ≡ i
      → (t.drawn ≡ none) ⊎ (i ≢ none)
      → IsTidy (dispose i t)
  unfolding dispose
  dispose-IsTidy none t a b c d e = record {
    live = a ∙ ap held (sym d);
    listening = b ∙ ap held (sym d);
    disposes = c ∙ sym d;
    drawn = elim e [ inl k ↦ k ∙ ap (λ i. shown i t.option_ref) (sym d) | inr k ↦ absurd (k refl) ];
    inactive = λ _. d;
  }
  dispose-IsTidy (some n) t a b c d e = record {
    live = ap (without n) a ∙ without-one n;
    listening = ap (without n) b ∙ without-one n;
    disposes = refl;
    drawn = refl;
    inactive = λ _. refl;
  }

  nothing_drawn : (i : Option ℕ) (option : O) → (shown i option ≡ none) ⊎ (i ≢ none)
  nothing_drawn none option = inl refl
  nothing_drawn (some n) option = inr (λ e. cc)

  unmount-IsTidy : (keeps : Bool) (s : Chart O) → IsTidy s → IsTidy (unmount keeps s)
  unfolding unmount
  unmount-IsTidy keeps s h =
      let kept = h.disposes in
      dispose-IsTidy s.disposes (record s { active = false; element = keeps })
        (h.live ∙ ap held (sym kept)) (h.listening ∙ ap held (sym kept)) refl (sym kept)
        (subst (λ d. (d ≡ none) ⊎ (s.disposes ≢ none))
          (sym (h.drawn ∙ ap (λ i. shown i s.option_ref) (sym kept)))
          (nothing_drawn s.disposes s.option_ref))

  -- In every state of a chart, the instance that it refers to is the only one that is not disposed and
  -- the only one with a listener, it shows the last option, its cleanup takes it away, and a chart that
  -- is not mounted has none.
  pub Lives-IsTidy : (option : O) (s : Chart O) → Lives option s → IsTidy s
  unfolding fresh_chart
  Lives-IsTidy option _ starts = record {
    live = refl;
    listening = refl;
    disposes = refl;
    drawn = refl;
    inactive = λ _. refl;
  }
  Lives-IsTidy option _ (mounts {s} l e) = mount-IsTidy s (Lives-IsTidy option s l) e
  Lives-IsTidy option _ (changes {s} l next) = set_option-IsTidy next s (Lives-IsTidy option s l)
  Lives-IsTidy option _ (imports {s} l n _) = imported-IsTidy n s (Lives-IsTidy option s l)
  Lives-IsTidy option _ (unmounts {s} l keeps _) = unmount-IsTidy keeps s (Lives-IsTidy option s l)
