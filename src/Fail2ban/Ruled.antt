-- ===== src/Fail2ban/Ruled.antt =====
-- The rules that a ban adds: they stand first in the chain `INPUT` of a family, and contain the comment of
-- the address.
use go_resolver.Base.{
  Option_ind, All, Lacks, Bool-cases, inl, inr, Text, ◌≡◌, ◌≢◌, ◌⊎◌, refl, sym, ap, ◌∙◌, Bool, true,
  Option, none, some, List, [], ◌∷◌, ◌++◌, append_assoc, codes, decimal, ◌===◌,
}
use go_resolver.Base.Search.{includes}
use go_resolver.Firewall.{Iptables, IsIptables, insert_args, plain}
use go_resolver.Firewall.Comments.{line_number}
use go_resolver.Firewall.Families.{Addresses, infer_firewall_family}
use go_resolver.Firewall.Rules.{
  IptablesRuleSpec, place_args, match_args, target_args, build_firewall_rule_args, add_rule_in,
  add_rule, comment_args, has_jump_arg,
}
use go_resolver.Fail2ban.{fail2ban_rule_comment, fail2ban_rule}

-- The arguments of a ban's rule: it goes first in its chain, and ends with the comment.
build_firewall_rule_args-fail2ban_rule :
    (equal_fold : Text → Text → Bool)
    → equal_fold (codes "insert") (codes "insert") ≡ true
    → (family of_rule ip dest_ip server_id : Text)
    → let spec = fail2ban_rule family ip dest_ip (fail2ban_rule_comment server_id ip) in
      build_firewall_rule_args equal_fold spec of_rule
      ≡ insert_args
          (codes "INPUT")
          (match_args of_rule spec ++ target_args spec)
          (fail2ban_rule_comment server_id ip)
unfolding build_firewall_rule_args place_args decimal ◌===◌
build_firewall_rule_args-fail2ban_rule equal_fold same family of_rule ip dest_ip server_id =
    let spec = fail2ban_rule family ip dest_ip (fail2ban_rule_comment server_id ip) in
    rw same (
      ap (λ l. codes "-I" ∷ codes "INPUT" ∷ codes "1" ∷ l)
        (sym
          (append_assoc (match_args of_rule spec) (target_args spec) (comment_args spec.comment))))

-- A ban's rule has a protocol, a source, perhaps a destination, and a target.
plain-fail2ban_rule :
    (family of_rule ip dest_ip comment : Text)
    → let spec = fail2ban_rule family ip dest_ip comment in
      plain (match_args of_rule spec ++ target_args spec) ≡ true
unfolding plain match_args target_args has_jump_arg ◌===◌
plain-fail2ban_rule family of_rule ip dest_ip comment = elim (Bool-cases (ip === [])) [
  | inl y ↦ elim (Bool-cases (dest_ip === [])) [ inl z ↦ rw (y, z) refl | inr z ↦ rw (y, z) refl ]
  | inr y ↦ elim (Bool-cases (dest_ip === [])) [ inl z ↦ rw (y, z) refl | inr z ↦ rw (y, z) refl ]
]

module _ {F : Type 0} (tables : Iptables F) (rules : F → Text → Text → List Text)
    (law : IsIptables tables rules (λ line. line_number line ≡ none)) (net : Addresses)
    (equal_fold : Text → Text → Bool)
    (same : equal_fold (codes "insert") (codes "insert") ≡ true) where
  -- A state with more rules than another one, at the head of a family's chain `INPUT`.
  abbrev pub Ruled : Text → F → F → Type 0
  Ruled comment s t =
      (family : Text) × (added : List Text) × (tables.available family ≡ true)
      × All (λ rule. includes rule comment ≡ true) added
      × (rules t family (codes "INPUT") ≡ added ++ rules s family (codes "INPUT"))
      × ((other_family other : Text)
          → (other_family ≢ family) ⊎ (other ≢ codes "INPUT")
          → rules t other_family other ≡ rules s other_family other)

  add_rule_in-run :
      (spec : IptablesRuleSpec) (family : Text) (s : F)
      → (add_rule_in tables equal_fold spec family s).1 ≡ none
      → let ran = tables.run family (build_firewall_rule_args equal_fold spec family) s in
        (ran.1 ≡ none) × ((add_rule_in tables equal_fold spec family s).0 ≡ ran.0)
  unfolding add_rule_in
  add_rule_in-run spec family s =
      let ran = tables.run family (build_firewall_rule_args equal_fold spec family) s in
      Option_ind (λ (r : F × Option Text). r.1 ≡ none → (ran.1 ≡ none) × (r.0 ≡ ran.0)) ran.1
        (ran.0, none) (λ e. (ran.0, some (codes "iptables error: " ++ e))) (λ e h. (e, refl))
        (λ e k h. cc)

  add_rule_in-Ruled :
      (family of_rule ip dest_ip server_id : Text) (s : F)
      → Lacks 10 (fail2ban_rule_comment server_id ip)
      → let spec = fail2ban_rule family ip dest_ip (fail2ban_rule_comment server_id ip) in
        (add_rule_in tables equal_fold spec of_rule s).1 ≡ none
        → Ruled
            (fail2ban_rule_comment server_id ip)
            s
            (add_rule_in tables equal_fold spec of_rule s).0
  add_rule_in-Ruled family of_rule ip dest_ip server_id s line h =
      let comment = fail2ban_rule_comment server_id ip in
      let spec = fail2ban_rule family ip dest_ip comment in
      let (clean, same_state) = add_rule_in-run spec of_rule s h in
      let options = match_args of_rule spec ++ target_args spec in
      let args =
        build_firewall_rule_args-fail2ban_rule equal_fold same family of_rule ip dest_ip
          server_id in
      let ran = ap (λ a. tables.run of_rule a s) args in
      let (there, added, has_it, first, rest) =
        law.inserts of_rule (codes "INPUT") comment options s
          (plain-fail2ban_rule family of_rule ip dest_ip comment) line
          (sym (ap (λ r. r.1) ran) ∙ clean) in
      let state = same_state ∙ ap (λ r. r.0) ran in
      (
        of_rule,
        added,
        there,
        has_it,
        ap (λ t. rules t of_rule (codes "INPUT")) state ∙ first,
        λ other_family other apart.
            ap (λ t. rules t other_family other) state ∙ rest other_family other apart,
      )

  pub add_rule-Ruled :
      (family ip dest_ip server_id : Text) (s : F)
      → Lacks 10 (fail2ban_rule_comment server_id ip)
      → let spec = fail2ban_rule family ip dest_ip (fail2ban_rule_comment server_id ip) in
        (add_rule tables net equal_fold spec s).1 ≡ none
        → Ruled (fail2ban_rule_comment server_id ip) s (add_rule tables net equal_fold spec s).0
  unfolding add_rule
  add_rule-Ruled family ip dest_ip server_id s line =
      let comment = fail2ban_rule_comment server_id ip in
      let spec = fail2ban_rule family ip dest_ip comment in
      Option_ind (λ (r : F × Option Text). r.1 ≡ none → Ruled comment s r.0)
        (infer_firewall_family net family ip dest_ip [])
        (s, some (codes "mixed firewall families in rule"))
        (λ g. add_rule_in tables equal_fold spec g s) (λ e h. cc)
        (λ g e h. add_rule_in-Ruled family g ip dest_ip server_id s line h)
