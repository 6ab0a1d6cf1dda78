-- ===== src/FormState/State/Rows.antt =====
-- Which sites have a row in the form.
use go_resolver.Base.{
  Text, ◌≡◌, ◌≢◌, ◌↔◌, inl, inr, refl, sym, ap, ◌∙◌, not, Option, arith, Bool, Bool-cases, true,
  false, none, some, List, [], ◌∷◌, In, map, codes, ◌===◌, ===_iff,
}
use go_resolver.FormState.Sites.{ServerConfiguration, SiteRow, map_site}
use go_resolver.FormState.State.{
  ServerConfigurationPage, as_array, is_real, real_sites, build_server_config_form_state,
}

clash : true ≡ false → ⊥
clash e = absurd (cc)

real_name : (name : Option Text) → Bool
real_name name = elim name [ none ↦ true | some n ↦ not (n === codes "dummy") ]

real_name_iff : (name : Option Text) → (real_name name ≡ true) ↔ (name ≢ some (codes "dummy"))
unfolding real_name
real_name_iff none = ground arith
real_name_iff (some n) = ground (arith, ===_iff n (codes "dummy"))

is_real_iff :
    (s : ServerConfiguration) → (is_real s ≡ true) ↔ (s.server_name ≢ some (codes "dummy"))
unfolding is_real real_name
is_real_iff s = real_name_iff s.server_name

In-real_sites :
    (s : ServerConfiguration) (ss : List ServerConfiguration)
    → In s (real_sites ss) ↔ (In s ss × (is_real s ≡ true))
unfolding real_sites
In-real_sites s [] = (λ h. absurd h, λ (h, _). absurd h)
In-real_sites s (t ∷ ss) = elim (Bool-cases (is_real t)) [
  | inl kept ↦
      rw (kept, real_sites)
        (
          λ h. elim h [
            | inl e ↦ (inl e, ap is_real e ∙ kept)
            | inr later ↦ let (here, r) = (In-real_sites s ss).0 later in (inr here, r)
          ],
          λ (h, r). elim h [ inl e ↦ inl e | inr later ↦ inr ((In-real_sites s ss).1 (later, r)) ],
        )
  | inr dropped ↦
      rw (dropped, real_sites)
        (
          λ h. let (here, r) = (In-real_sites s ss).0 h in (inr here, r),
          λ (h, r). elim h [
            | inl e ↦ absurd (clash (sym r ∙ ap is_real e ∙ dropped))
            | inr later ↦ (In-real_sites s ss).1 (later, r)
          ],
        )
]

In-map :
    (row : SiteRow) (ss : List ServerConfiguration)
    → In row (map map_site ss) ↔ ((s : ServerConfiguration) × In s ss × (row ≡ map_site s))
In-map row [] = (λ h. absurd h, λ (s, h, _). absurd h)
In-map row (t ∷ ss) = (
  λ h. elim h [
    | inl e ↦ (t, inl refl, e)
    | inr later ↦ let (s, here, e) = (In-map row ss).0 later in (s, inr here, e)
  ],
  λ (s, h, e). elim h [
    | inl same ↦ inl (e ∙ ap map_site same)
    | inr later ↦ inr ((In-map row ss).1 (s, later, e))
  ],
)

-- The form has a row for a site of the page exactly if the site is not named "dummy".
In-build_server_config_form_state :
    (page : ServerConfigurationPage) (row : SiteRow)
    → In row (build_server_config_form_state page).sites ↔ (
        (s : ServerConfiguration) × In s (as_array page.sites)
        × (s.server_name ≢ some (codes "dummy"))
        × (row ≡ map_site s))
unfolding build_server_config_form_state
In-build_server_config_form_state page row = (
  λ h.
      let (s, here, e) = (In-map row (real_sites (as_array page.sites))).0 h in
      let (listed, r) = (In-real_sites s (as_array page.sites)).0 here in
      (s, listed, (is_real_iff s).0 r, e),
  λ (s, listed, named, e).
      (In-map row (real_sites (as_array page.sites))).1
        (s, (In-real_sites s (as_array page.sites)).1 (listed, (is_real_iff s).1 named), e),
)
