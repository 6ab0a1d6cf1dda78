-- ===== src/Firewall/Comments/Took.antt =====
-- What the deletions of a family make of its rules: those with the comment are gone, and the rules of the
-- other chains and of the other family stay.
use go_resolver.Base.{
  Text, ℕ, suc, ◌≡◌, ◌≢◌, ◌⊎◌, inl, inr, refl, sym, ap, subst, Bool, Bool-cases, true, false, ◌&&◌,
  none, List, [], ◌∷◌, if◌then◌else◌,
}
use go_resolver.Base.Search.{includes}
use go_resolver.Firewall.{Iptables, IsIptables}
use go_resolver.Firewall.Comments.{line_number, sort_down, Deletion, delete_found}
use go_resolver.Firewall.Comments.Numbers.{places}
use go_resolver.Firewall.Comments.Deleted.{
  without, has, filter_table, Leaves, Leaves-places, delete_rules_other,
}

-- There are places if a rule has the comment.
places-has :
    (comment : Text) (n : ℕ) (rules : List Text)
    → ((has comment rules ≡ true) × ((m : ℕ) × (ms : List ℕ) × (places comment n rules ≡ m ∷ ms)))
      ⊎ ((has comment rules ≡ false)
          × ((places comment n rules ≡ []) × (without comment rules ≡ rules)))
unfolding has places without
places-has comment n [] = inr (refl, (refl, refl))
places-has comment n (rule ∷ rules) = elim (Bool-cases (includes rule comment)) [
  | inl y ↦ rw (y, has, places, without) (inl (refl, (n, places comment (suc n) rules, refl)))
  | inr z ↦ elim (places-has comment (suc n) rules) [
    | inl (h, (m, ms, e)) ↦ rw (z, has, places, without) (inl (h, (m, ms, e)))
    | inr (h, (e, k)) ↦ rw (z, has, places, without) (inr (h, (e, ap (λ l. rule ∷ l) k)))
  ]
]

-- What is left of a family's rules, where its program is there.
abbrev pub left : {F : Type 0} → Iptables F → Text → Text → List Text → List Text
left ip comment family texts = if ip.available family then without comment texts else texts

-- Whether a family has a rule to delete.
abbrev pub seen : {F : Type 0} → Iptables F → Text → Text → List Text → Bool
seen ip comment family texts = ip.available family && has comment texts

module _ {F : Type 0} (ip : Iptables F) (rules : F → Text → Text → List Text)
    (law : IsIptables ip rules (λ line. line_number line ≡ none)) (chain : Text)
    (comment : Text) where
  -- A state behind another one, but for a family's rules in the chain.
  abbrev pub Elsewhere : Text → F → F → Type 0
  Elsewhere family s t =
      (other_family other : Text)
      → (other_family ≢ family) ⊎ (other ≢ chain)
      → rules t other_family other ≡ rules s other_family other

  -- What a deletion in a family makes of a state: its rules in the chain, and whether there were any.
  abbrev pub Took : Text → F → List Text → Bool → Deletion F → Type 0
  Took family s kept hit e =
      (rules e.after family chain ≡ kept)
      × (e.found ≡ hit)
      × (e.failed ≡ none)
      × Elsewhere family s e.after

  Took-some :
      (family : Text) (s : F) (kept : List Text) (m : ℕ) (ms : List ℕ)
      → Leaves ip rules law chain family (sort_down (m ∷ ms)) s kept
      → Took family s kept true (delete_found ip chain filter_table family (m ∷ ms) s)
  unfolding delete_found
  Took-some family s kept m ms (h, clean) = (
    h,
    refl,
    clean,
    λ other_family other apart.
        delete_rules_other ip rules law chain family other_family other apart (sort_down (m ∷ ms))
          none s,
  )

  Took-none :
      (family : Text) (s : F) (kept : List Text)
      → rules s family chain ≡ kept
      → Took family s kept false (delete_found ip chain filter_table family [] s)
  unfolding delete_found
  Took-none family s kept h = (h, refl, refl, λ other_family other apart. refl)

  module _ (family : Text) (s : F) (there : ip.available family ≡ true) where
    pub Took-places :
        Took family s
          (without comment (rules s family chain))
          (has comment (rules s family chain))
          (delete_found ip chain filter_table family (places comment 1 (rules s family chain)) s)
    Took-places =
        let kept = without comment (rules s family chain) in
        elim (places-has comment 1 (rules s family chain)) [
          | inl (h, (m, ms, e)) ↦
              let d =
                Leaves-places ip rules law chain family there comment [] (rules s family chain) s
                  refl in
              subst
                (λ b. Took family s kept b (
                  delete_found ip chain filter_table family
                    (places comment 1 (rules s family chain)) s))
                (sym h)
                (subst
                  (λ ns. Took family s kept true (delete_found ip chain filter_table family ns s))
                  (sym e)
                  (Took-some family s kept m ms
                    (subst (λ ns. Leaves ip rules law chain family (sort_down ns) s kept) e d)))
          | inr (h, (e, k)) ↦
              subst
                (λ b. Took family s kept b (
                  delete_found ip chain filter_table family
                    (places comment 1 (rules s family chain)) s))
                (sym h)
                (subst
                  (λ ns. Took family s kept false (delete_found ip chain filter_table family ns s))
                  (sym e) (Took-none family s kept (sym k)))
        ]
