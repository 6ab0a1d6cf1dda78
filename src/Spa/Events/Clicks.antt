-- ===== src/Spa/Events/Clicks.antt =====
-- When a click on a link is taken over by the page.
use go_resolver.Base.{
  Text, ◌≡◌, ◌≢◌, ◌⊎◌, sym, ap, ◌∙◌, arith, Option, [], ◌∷◌, codes, not, ◌&&◌, truthy, ===_refl,
  inl, inr, refl, Bool, true, false, none, some, ◌===◌, ===_iff, Bool-cases, Option-cases,
}
use go_resolver.Base.Url.{UrlParams}
use go_resolver.Spa.{Spa, navigate, no_options, route_at}
use go_resolver.Spa.Events.{Anchor, Click, is_modified, leaves_page, is_ignored, handle_click}

-- A plain left click, which nothing has handled, on a link of the same origin that asks for no other
-- handling and opens in the same window, to a known route.
pub record IsTaken (u : UrlParams) (c : Click) (a : Anchor) (s : Spa) : Type 0 where
  pub unhandled : c.default_prevented ≡ false
  pub primary : c.button ≡ 0
  pub no_meta : c.meta_key ≡ false
  pub no_ctrl : c.ctrl_key ≡ false
  pub no_shift : c.shift_key ≡ false
  pub no_alt : c.alt_key ≡ false
  pub anchor : c.anchor ≡ some a
  pub heeded : a.spa_ignore ≢ some (codes "true")
  pub shown : a.download ≡ false
  pub target : (a.target ≡ []) ⊎ (a.target ≡ codes "_self")
  pub origin : a.url.origin ≡ s.origin
  pub known : (route_at u a.url.location).error ≡ none

-- The same in the words of the code.
record Passes (u : UrlParams) (c : Click) (a : Anchor) (s : Spa) : Type 0 where
  plain : is_modified c ≡ false
  anchor : c.anchor ≡ some a
  stays : leaves_page a ≡ false
  origin : a.url.origin ≡ s.origin
  known : (route_at u a.url.location).error ≡ none

is_ignored-false : (o : Option Text) → o ≢ some (codes "true") → is_ignored o ≡ false
unfolding is_ignored
is_ignored-false none h = refl
is_ignored-false (some v) h = elim (Bool-cases (v === codes "true")) [
  | inl y ↦ absurd (h (ap some ((===_iff v (codes "true")).0 y)))
  | inr n ↦ n
]

is_ignored-true : is_ignored (some (codes "true")) ≡ true
unfolding is_ignored
is_ignored-true = ===_refl (codes "true")

heeded-is_ignored : (o : Option Text) → is_ignored o ≡ false → o ≢ some (codes "true")
heeded-is_ignored o h e =
    let yes : is_ignored o ≡ true = ap is_ignored e ∙ is_ignored-true in ground (arith, yes, h)

elsewhere : Text → Bool
elsewhere t = truthy t && not (t === codes "_self")

elsewhere-false : (t : Text) → (t ≡ []) ⊎ (t ≡ codes "_self") → elsewhere t ≡ false
unfolding elsewhere ◌===◌
elsewhere-false t (inl e) = rw e refl
elsewhere-false t (inr e) = rw e refl

here-elsewhere : (t : Text) → elsewhere t ≡ false → (t ≡ []) ⊎ (t ≡ codes "_self")
unfolding elsewhere
here-elsewhere [] h = inl refl
here-elsewhere (x ∷ t) h = elim (Bool-cases ((x ∷ t) === codes "_self")) [
  | inl y ↦ inr ((===_iff (x ∷ t) (codes "_self")).0 y)
  | inr n ↦ absurd (ground (arith, h, n))
]

module _ (u : UrlParams) (c : Click) (a : Anchor) (s : Spa) where
  IsTaken-Passes : Passes u c a s → IsTaken u c a s
  unfolding elsewhere
  IsTaken-Passes p =
      let plain = p.plain in
      let stays = p.stays in
      record {
        unhandled = ground (arith, plain);
        primary = ground (arith, plain);
        no_meta = ground (arith, plain);
        no_ctrl = ground (arith, plain);
        no_shift = ground (arith, plain);
        no_alt = ground (arith, plain);
        anchor = p.anchor;
        heeded = heeded-is_ignored a.spa_ignore (ground (arith, stays));
        shown = ground (arith, stays);
        target = here-elsewhere a.target (ground (arith, stays));
        origin = p.origin;
        known = p.known;
      }

  Passes-IsTaken : IsTaken u c a s → Passes u c a s
  unfolding elsewhere
  Passes-IsTaken t = record {
    plain = rw (t.unhandled, t.primary, t.no_meta, t.no_ctrl, t.no_shift, t.no_alt) refl;
    anchor = t.anchor;
    stays =
        rw (is_ignored-false a.spa_ignore t.heeded, t.shown) (elsewhere-false a.target t.target);
    origin = t.origin;
    known = t.known;
  }

module _ (u : UrlParams) (c : Click) (s : Spa) where
  anchor_cases :
      (a : Anchor)
      → c.anchor ≡ some a
      → (b : Bool) → is_modified c ≡ b
      → (d : Bool) → leaves_page a ≡ d
      → (handle_click u c s ≡ (s, false))
        ⊎ (Passes u c a s × (handle_click u c s ≡ (navigate u a.url.location no_options s, true)))
  unfolding handle_click
  anchor_cases a e true m d l = inl (rw (m, handle_click))
  anchor_cases a e false m true l = inl (rw (m, e, l, handle_click))
  anchor_cases a e false m false l = elim (Bool-cases (a.url.origin === s.origin)) [
    | inr other ↦ inl (rw (m, e, l, other, handle_click))
    | inl same ↦ elim (Option-cases (route_at u a.url.location).error) [
      | inr (message, err) ↦ inl (rw (m, e, l, same, err, handle_click))
      | inl known ↦ inr (
        record { plain = m; anchor = e; stays = l; origin = (===_iff _ _).0 same; known = known },
        rw (m, e, l, same, known, handle_click),
      )
    ]
  ]

  either_way :
      (handle_click u c s ≡ (s, false))
      ⊎ ((a : Anchor) × Passes u c a s
          × (handle_click u c s ≡ (navigate u a.url.location no_options s, true)))
  unfolding handle_click
  either_way = elim (Option-cases c.anchor) [
    | inl missing ↦ elim (Bool-cases (is_modified c)) [
      | inl m ↦ inl (rw (m, handle_click))
      | inr m ↦ inl (rw (m, missing, handle_click))
    ]
    | inr (a, e) ↦ elim (anchor_cases a e (is_modified c) refl (leaves_page a) refl) [
      | inl ignored ↦ inl ignored
      | inr (taken, done) ↦ inr (a, taken, done)
    ]
  ]

  handle_click_taken :
      (a : Anchor)
      → Passes u c a s
      → handle_click u c s ≡ (navigate u a.url.location no_options s, true)
  unfolding handle_click
  handle_click_taken a t =
      rw (t.plain, t.anchor, t.stays, (===_iff _ _).1 t.origin, t.known, handle_click)

  -- Either no link makes the click one to be taken (`IsTaken`), and it changes nothing and is left to the
  -- browser; or a link does, and the click is taken over and navigates to it.
  pub handle_click_cases :
      (((a : Anchor) × IsTaken u c a s → ⊥) × (handle_click u c s ≡ (s, false)))
      ⊎ ((a : Anchor) × IsTaken u c a s
          × (handle_click u c s ≡ (navigate u a.url.location no_options s, true)))
  handle_click_cases = elim either_way [
    | inl left ↦ inl (
      λ (a, t).
          let done = handle_click_taken a (Passes-IsTaken u c a s t) in
          let clash : true ≡ false = ap (λ r. r.1) (sym done ∙ left) in cc,
      left,
    )
    | inr (a, passes, done) ↦ inr (a, IsTaken-Passes u c a s passes, done)
  ]
