-- ===== src/Firewall/Families/Agreement.antt =====
-- The family of a rule is the one that every address of the rule is of, and there is no family only if
-- two of them disagree.
use go_resolver.Base.{
  Text, ◌≡◌, ◌≢◌, ◌⊎◌, inl, inr, refl, sym, arith, Option, none, some, List, [], ◌∷◌, All, ◌===◌,
  ===_iff, if◌then◌else◌, subst,
}
use go_resolver.Firewall.{ipv4}
use go_resolver.Firewall.Families.{
  Addresses, normalize_firewall_family, firewall_family_for_value, agree, settled,
  infer_firewall_family,
}

-- A family that may be unknown does not contradict another one.
abbrev pub Fits : Text → Text → Type 0
Fits found f = (found ≡ []) ⊎ (found ≡ f)

-- A turn of the loop, by its outcome.
turn : Text → Text → Option Text → Option Text → Option Text
turn family g kept taken =
    if g === [] then kept else if family === [] then taken else if family === g then kept else none

turn-some :
    (f family g : Text) (kept taken : Option Text)
    → turn family g kept taken ≡ some f
    → ((kept ≡ some f) × ((g ≡ []) ⊎ (g ≡ family))) ⊎ ((taken ≡ some f) × (family ≡ []))
unfolding turn
turn-some f family g kept taken h =
    ground (arith, ===_iff g [], ===_iff family [], ===_iff family g)

turn-none :
    (f family g : Text) (kept taken : Option Text)
    → Fits family f
    → Fits g f
    → turn family g kept taken ≡ none
    → (kept ≡ none) ⊎ (taken ≡ none)
unfolding turn
turn-none f family g kept taken h k e =
    ground (arith, ===_iff g [], ===_iff family [], ===_iff family g)

-- A family that all of these are, where they are known; or there is no such family.
abbrev pub Agreed : List Text → Option Text → Type 0
Agreed told (some f) = All (λ g. Fits g f) told
Agreed told none = (f : Text) → ¬ All (λ g. Fits g f) told

Fits-settled : (told g f : Text) → Fits told g → (if g === [] then ipv4 else g) ≡ f → Fits told f
Fits-settled told g f h e = ground (arith, ===_iff g [])

All-Fits-settled :
    (told : List Text) (g : Text)
    → All (λ t. Fits t g) told
    → All (λ t. Fits t (if g === [] then ipv4 else g)) told
All-Fits-settled [] g h = tt
All-Fits-settled (t ∷ told) g (h, k) =
    (Fits-settled t g (if g === [] then ipv4 else g) h refl, All-Fits-settled told g k)

Agreed-settled :
    (told : List Text) (found : Option Text)
    → ((f : Text) → found ≡ some f → All (λ g. Fits g f) told)
    → ((f : Text) → All (λ g. Fits g f) told → found ≢ none)
    → Agreed told (settled found)
Agreed-settled told none h k = λ f fits. k f fits refl
Agreed-settled told (some g) h k = All-Fits-settled told g (h g refl)

module _ (net : Addresses) where
  agree-Fits :
      (f family : Text) (candidates : List Text)
      → agree net family candidates ≡ some f
      → Fits family f × All (λ c. Fits (firewall_family_for_value net c) f) candidates
  unfolding agree turn
  agree-Fits f family [] h = (inr (cc), tt)
  agree-Fits f family (c ∷ candidates) h =
      let g = firewall_family_for_value net c in
      elim (turn-some f family g (agree net family candidates) (agree net g candidates) h) [
        | inl (e, k) ↦
            let (own, rest) = agree-Fits f family candidates e in
            (own, (elim k [ inl n ↦ inl n | inr d ↦ subst (λ x. Fits x f) (sym d) own ], rest))
        | inr (e, k) ↦ let (own, rest) = agree-Fits f g candidates e in (inl k, (own, rest))
      ]

  agree_some :
      (f family : Text) (candidates : List Text)
      → Fits family f
      → All (λ c. Fits (firewall_family_for_value net c) f) candidates
      → agree net family candidates ≢ none
  unfolding agree turn
  agree_some f family [] h k e = cc
  agree_some f family (c ∷ candidates) h (k, l) e =
      let g = firewall_family_for_value net c in
      elim (turn-none f family g (agree net family candidates) (agree net g candidates) h k e) [
        | inl x ↦ agree_some f family candidates h l x
        | inr x ↦ agree_some f g candidates k l x
      ]

  -- The family that is found is that of the form and of each address, where these are known, and none is
  -- found only if no family is.
  pub infer_firewall_family-Agreed :
      (family source_ip dest_ip to_ip : Text)
      → Agreed
          (normalize_firewall_family net family
            ∷ firewall_family_for_value net source_ip
            ∷ firewall_family_for_value net dest_ip
            ∷ firewall_family_for_value net to_ip
            ∷ [])
          (infer_firewall_family net family source_ip dest_ip to_ip)
  unfolding infer_firewall_family
  infer_firewall_family-Agreed family source_ip dest_ip to_ip =
      let candidates : List Text = source_ip ∷ dest_ip ∷ to_ip ∷ [] in
      let start = normalize_firewall_family net family in
      Agreed-settled
        (start
          ∷ firewall_family_for_value net source_ip
          ∷ firewall_family_for_value net dest_ip
          ∷ firewall_family_for_value net to_ip
          ∷ [])
        (agree net start candidates) (λ f e. agree-Fits f start candidates e)
        (λ f (k, l) e. agree_some f start candidates k l e)
