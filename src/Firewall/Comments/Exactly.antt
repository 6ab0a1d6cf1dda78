-- ===== src/Firewall/Comments/Exactly.antt =====
-- What `DeleteRuleByComment` does to the chains of the two families: the rules with the comment go, in
-- whatever order they stand, and nothing else changes.
use go_resolver.Base.{
  Text, ℕ, ◌<◌, suc, ◌≡◌, ◌≢◌, inl, inr, refl, sym, ap, ap₂, ◌∙◌, subst, arith, Bool, Bool-cases,
  true, false, ◌||◌, ◌===◌, ===_iff, Option, none, some, List, [], ◌∷◌, ◌++◌, codes, length,
  if◌then◌else◌, is_digit,
}
use go_resolver.Base.Int.{int64_limit}
use go_resolver.Firewall.{Iptables, IsIptables, ipv4, ipv6}
use go_resolver.Firewall.Comments.{
  line_number, matching_numbers, later_error, Deletion, delete_found, delete_in_family, delete_turn,
  deletion_result, delete_rule_by_comment,
}
use go_resolver.Firewall.Comments.Numbers.{
  places, matching_numbers-Listed, matching_numbers-heading,
}
use go_resolver.Firewall.Comments.Deleted.{without, has, filter_table}
use go_resolver.Firewall.Comments.Took.{left, seen, Took, Elsewhere, Took-places}

-- The result of a deletion that went well, or found nothing.
abbrev pub outcome : Bool → Text → Text → Option Text
outcome hit chain comment =
    if hit
    then none
    else some (
        codes "rule with comment '"
        ++ comment
        ++ codes "' not found in "
        ++ filter_table
        ++ codes ":"
        ++ chain)

unequal : (s t : Text) → (s === t) ≡ false → s ≢ t
unequal s t h e = ground (arith, ===_iff s t)

other_families : (ipv4 ≢ ipv6) × (ipv6 ≢ ipv4)
unfolding ◌===◌
other_families = (unequal ipv4 ipv6 refl, unequal ipv6 ipv4 refl)

or_false : (b : Bool) → (b || false) ≡ b
or_false b = ground arith

deletion_result-outcome :
    {F : Type 0} (chain comment : Text) (d : Deletion F)
    → d.failed ≡ none
    → deletion_result chain filter_table comment d ≡ (d.after, outcome d.found chain comment)
unfolding deletion_result
deletion_result-outcome chain comment d clean = elim (Bool-cases d.found) [
  | inl y ↦ rw (y, clean, deletion_result) refl
  | inr n ↦ rw (n, clean, deletion_result) refl
]

module _ {F : Type 0} (ip : Iptables F) (rules : F → Text → Text → List Text)
    (law : IsIptables ip rules (λ line. line_number line ≡ none)) (chain : Text) (c : ℕ)
    (text : Text) (solid : is_digit c ≡ false) (dark : b' ' ≢ c) where
  delete_in_family-places :
      (family : Text) (s : F)
      → ip.available family ≡ true
      → law.stands family chain ≡ true
      → suc (length (rules s family chain)) < int64_limit
      → delete_in_family ip chain filter_table (c ∷ text) family s
        ≡ delete_found ip chain filter_table family (places (c ∷ text) 1 (rules s family chain)) s
  unfolding delete_in_family
  delete_in_family-places family s there stands small =
      let (lines, printed, listed) = law.prints family chain s there stands in
      ap
        (λ o. elim o [
          | none ↦ record {
            after = s;
            found = false;
            failed = some (codes "iptables list failed: ");
          }
          | some lines ↦
              delete_found ip chain filter_table family (matching_numbers (c ∷ text) lines) s
        ])
        printed
      ∙ ap (λ ns. delete_found ip chain filter_table family ns s)
          (matching_numbers-heading c text solid dark (law.heading family chain s)
              (lines ++ ([] ∷ [])) (law.unnumbered family chain s)
            ∙ matching_numbers-Listed c text solid dark 0 (rules s family chain) lines (omega arith)
                listed)

  -- What a turn of the loop makes of what the turns in front have found.
  abbrev Turned : Text → Deletion F → Deletion F → Type 0
  Turned family d e =
      (rules e.after family chain ≡ left ip (c ∷ text) family (rules d.after family chain))
      × (e.found ≡ (seen ip (c ∷ text) family (rules d.after family chain) || d.found))
      × (e.failed ≡ d.failed)
      × Elsewhere ip rules law chain (c ∷ text) family d.after e.after

  delete_turn-Turned :
      (family : Text) (d : Deletion F)
      → law.stands family chain ≡ true
      → suc (length (rules d.after family chain)) < int64_limit
      → Turned family d (delete_turn ip chain filter_table (c ∷ text) family d)
  unfolding delete_turn
  delete_turn-Turned family d stands small = elim (Bool-cases (ip.available family)) [
    | inl y ↦
        let taken : Took ip rules law chain (c ∷ text) family d.after
            (without (c ∷ text) (rules d.after family chain))
            (has (c ∷ text) (rules d.after family chain))
            (delete_in_family ip chain filter_table (c ∷ text) family d.after) =
          subst
            (Took ip rules law chain (c ∷ text) family d.after
              (without (c ∷ text) (rules d.after family chain))
              (has (c ∷ text) (rules d.after family chain)))
            (sym (delete_in_family-places family d.after y stands small))
            (Took-places ip rules law chain (c ∷ text) family d.after y) in
        rw (y, delete_turn)
          (taken.0, ap (λ b. b || d.found) taken.1, ap (later_error d.failed) taken.2, taken.3)
    | inr n ↦ rw (n, delete_turn) (refl, refl, refl, λ other_family other apart. refl)
  ]

  -- Where the chain stands in both families, deleting by a comment leaves exactly the rules of the chain without the comment, in both families,
  -- does not touch any other chain, and reports an error exactly if no rule had the comment.
  pub delete_rule_by_comment-left :
      (s : F)
      → law.stands ipv4 chain ≡ true
      → law.stands ipv6 chain ≡ true
      → suc (length (rules s ipv4 chain)) < int64_limit
      → suc (length (rules s ipv6 chain)) < int64_limit
      → let out = delete_rule_by_comment ip chain filter_table (c ∷ text) s in
        (rules out.0 ipv4 chain ≡ left ip (c ∷ text) ipv4 (rules s ipv4 chain))
        × (rules out.0 ipv6 chain ≡ left ip (c ∷ text) ipv6 (rules s ipv6 chain))
        × ((family other : Text) → other ≢ chain → rules out.0 family other ≡ rules s family other)
        × (out.1
            ≡ outcome
                (seen ip (c ∷ text) ipv6 (rules s ipv6 chain)
                  || seen ip (c ∷ text) ipv4 (rules s ipv4 chain))
                chain
                (c ∷ text))
  unfolding delete_rule_by_comment
  delete_rule_by_comment-left s stands stands' small small' =
      let start : Deletion F = record { after = s; found = false; failed = none } in
      let first = delete_turn ip chain filter_table (c ∷ text) ipv4 start in
      let d = delete_turn ip chain filter_table (c ∷ text) ipv6 first in
      let four = delete_turn-Turned ipv4 start stands small in
      let kept = four.3 ipv6 chain (inl other_families.1) in
      let six =
        delete_turn-Turned ipv6 first stands'
          (subst (λ l. suc (length l) < int64_limit) (sym kept) small') in
      let out : delete_rule_by_comment ip chain filter_table (c ∷ text) s
          ≡ (d.after, outcome d.found chain (c ∷ text)) =
        deletion_result-outcome chain (c ∷ text) d (six.2 ∙ four.2) in
      (
        ap (λ r. rules r.0 ipv4 chain) out ∙ six.3 ipv4 chain (inl other_families.0) ∙ four.0,
        ap (λ r. rules r.0 ipv6 chain) out ∙ six.0 ∙ ap (left ip (c ∷ text) ipv6) kept,
        λ family other apart.
            ap (λ r. rules r.0 family other) out
            ∙ six.3 family other (inr apart)
            ∙ four.3 family other (inr apart),
        ap (λ r. r.1) out
            ∙ ap (λ b. outcome b chain (c ∷ text))
                (six.1
                  ∙ ap₂ (λ l b. seen ip (c ∷ text) ipv6 l || b) kept
                      (four.1 ∙ or_false (seen ip (c ∷ text) ipv4 (rules s ipv4 chain)))),
      )
