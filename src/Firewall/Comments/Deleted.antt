-- ===== src/Firewall/Comments/Deleted.antt =====
-- The deletions of a chain's rules by their numbers, the last one first: each number is still that of
-- its rule when its turn comes.
use go_resolver.Base.{
  Text, ℕ, suc, ◌≡◌, ◌≢◌, ◌⊎◌, inl, inr, refl, sym, ap, ap₂, ◌∙◌, subst, arith, Bool, Bool-cases,
  true, false, ◌||◌, ◌===◌, Option, none, List, [], ◌∷◌, ◌++◌, append_assoc, codes, length,
  length-append, if◌then◌else◌,
}
use go_resolver.Base.Search.{includes}
use go_resolver.Firewall.{Iptables, IsIptables, delete_args}
use go_resolver.Firewall.Comments.{line_number, sort_down, later_error, delete_rule, delete_rules}
use go_resolver.Firewall.Comments.Numbers.{places, sort_down-places}

-- The rules without the comment, in their order.
unfoldable pub without : Text → List Text → List Text
without comment [] = []
without comment (rule ∷ rules) =
    let rest = without comment rules in if includes rule comment then rest else rule ∷ rest

-- Whether a rule has the comment.
unfoldable pub has : Text → List Text → Bool
has comment [] = false
has comment (rule ∷ rules) = includes rule comment || has comment rules

abbrev pub filter_table : Text
filter_table = codes "filter"

module _ {F : Type 0} (ip : Iptables F) (rules : F → Text → Text → List Text)
    (law : IsIptables ip rules (λ line. line_number line ≡ none)) (chain : Text) where
  delete_rules-append :
      (family : Text) (ns ms : List ℕ) (last : Option Text) (s : F)
      → delete_rules ip chain filter_table family (ns ++ ms) last s
        ≡ delete_rules ip chain filter_table family ms
            (delete_rules ip chain filter_table family ns last s).1
            (delete_rules ip chain filter_table family ns last s).0
  unfolding delete_rules
  delete_rules-append family [] ms last s = refl
  delete_rules-append family (n ∷ ns) ms last s =
      let (t, failed) = delete_rule ip chain n filter_table family s in
      delete_rules-append family ns ms (later_error last failed) t

  delete_rule-state :
      (family : Text) (n : ℕ) (s : F)
      → (delete_rule ip chain n filter_table family s).0 ≡ (ip.run family (delete_args chain n) s).0
  unfolding delete_rule ◌===◌
  delete_rule-state family n s = ground arith

  delete_rule-error :
      (family : Text) (n : ℕ) (s : F)
      → (ip.run family (delete_args chain n) s).1 ≡ none
      → (delete_rule ip chain n filter_table family s).1 ≡ none
  unfolding delete_rule ◌===◌
  delete_rule-error family n s h = rw (h, delete_rule) refl

  -- A deletion leaves the other chains alone.
  pub delete_rules_other :
      (family other_family other : Text)
      → (other_family ≢ family) ⊎ (other ≢ chain)
      → (ns : List ℕ) (last : Option Text) (s : F)
      → rules (delete_rules ip chain filter_table family ns last s).0 other_family other
        ≡ rules s other_family other
  unfolding delete_rules delete_rule
  delete_rules_other family other_family other apart [] last s = refl
  delete_rules_other family other_family other apart (n ∷ ns) last s =
      let (t, failed) = delete_rule ip chain n filter_table family s in
      delete_rules_other family other_family other apart ns (later_error last failed) t
      ∙ ap (λ u. rules u other_family other) (delete_rule-state family n s)
      ∙ law.keeps family chain other_family other n s apart

  -- What is left in the chain, with no error, behind the deletion of some numbers.
  abbrev pub Leaves : Text → List ℕ → F → List Text → Type 0
  Leaves family ns s left =
      (rules (delete_rules ip chain filter_table family ns none s).0 family chain ≡ left)
      × ((delete_rules ip chain filter_table family ns none s).1 ≡ none)

  module _ (family : Text) (there : ip.available family ≡ true) where
    -- One more number, of a rule that the deletions so far have left where it was.
    Leaves-last :
        (before : List Text) (rule : Text) (after : List Text) (ns : List ℕ) (s : F)
        → Leaves family ns s (before ++ rule ∷ after)
        → Leaves family (ns ++ suc (length before) ∷ []) s (before ++ after)
    unfolding delete_rules
    Leaves-last before rule after ns s (h, clean) =
        let mid = delete_rules ip chain filter_table family ns none s in
        let gone = law.deletes family chain before rule after mid.0 there h in
        let whole = delete_rules-append family ns (suc (length before) ∷ []) none s in
        (
          ap (λ r. rules r.0 family chain) whole
              ∙ ap (λ u. rules u family chain)
                  (delete_rule-state family (suc (length before)) mid.0)
              ∙ gone.0,
          ap (λ r. r.1) whole
              ∙ ap₂ later_error clean (delete_rule-error family (suc (length before)) mid.0 gone.1),
        )

    Leaves-none :
        (comment : Text) (n : ℕ) (before : List Text) (s : F)
        → rules s family chain ≡ before ++ []
        → Leaves family (sort_down (places comment n [])) s (before ++ without comment [])
    unfolding delete_rules sort_down places without
    Leaves-none comment n before s h = (h, refl)

    -- A rule that stays is counted among those in front.
    Leaves-moved :
        (before : List Text) (rule : Text) (ns : ℕ → List ℕ) (after : List Text) (s : F)
        → Leaves family (ns (length (before ++ rule ∷ []))) s ((before ++ rule ∷ []) ++ after)
        → Leaves family (ns (suc (length before))) s (before ++ rule ∷ after)
    Leaves-moved before rule ns after s h =
        let one : length (before ++ rule ∷ []) ≡ suc (length before) =
          omega (arith, length-append before (rule ∷ [])) in
        subst (λ k. Leaves family (ns k) s (before ++ rule ∷ after)) one
          (subst (Leaves family (ns (length (before ++ rule ∷ []))) s)
            (append_assoc before (rule ∷ []) after) h)

    -- The places of the rules with the comment, the last one first.
    pub Leaves-places :
        (comment : Text) (before after : List Text) (s : F)
        → rules s family chain ≡ before ++ after
        → Leaves family
            (sort_down (places comment (suc (length before)) after))
            s
            (before ++ without comment after)
    unfolding without
    Leaves-places comment before [] s h = Leaves-none comment (suc (length before)) before s h
    Leaves-places comment before (rule ∷ after) s h =
        let next =
          Leaves-places comment (before ++ rule ∷ []) after s
            (h ∙ sym (append_assoc before (rule ∷ []) after)) in
        let moved =
          Leaves-moved before rule (λ n. sort_down (places comment (suc n) after))
            (without comment after) s next in
        elim (Bool-cases (includes rule comment)) [
          | inl y ↦
              rw (sort_down-places comment (suc (length before)) rule after, y, without)
                (Leaves-last before rule (without comment after)
                  (sort_down (places comment (suc (suc (length before))) after)) s moved)
          | inr n ↦ rw (sort_down-places comment (suc (length before)) rule after, n, without) moved
        ]
