-- ===== src/Fail2ban/Unban.antt =====
-- What forgetting an address does to the firewall: the rules of the two chains whose text contains its
-- comment go, and nothing else changes.
use go_resolver.Base.{
  Text, ◌<◌, suc, ◌≡◌, ◌≢◌, refl, sym, ap, ◌∙◌, subst, arith, none, List, ◌∷◌, ◌++◌, codes, length,
  ◌===◌, ===_apart,
}
use go_resolver.Base.Int.{int64_limit}
use go_resolver.Firewall.{Iptables, IsIptables, ipv4, ipv6}
use go_resolver.Firewall.Comments.{line_number, delete_rule_by_comment}
use go_resolver.Firewall.Comments.Took.{left}
use go_resolver.Firewall.Comments.Deleted.{filter_table}
use go_resolver.Firewall.Comments.Exactly.{delete_rule_by_comment-left}
use go_resolver.Fail2ban.{fail2ban_rule_comment, forget}

module _ {F : Type 0} (tables : Iptables F) (rules : F → Text → Text → List Text)
    (law : IsIptables tables rules (λ line. line_number line ≡ none)) where
  -- No chain has more rules than fit in an `int`.
  abbrev pub Short : F → Text → Type 0
  Short s chain =
      (suc (length (rules s ipv4 chain)) < int64_limit)
      × (suc (length (rules s ipv6 chain)) < int64_limit)

  chains_apart : codes "FORWARD" ≢ codes "INPUT"
  unfolding ◌===◌
  chains_apart = ===_apart refl

  chains_differ : codes "INPUT" ≢ codes "FORWARD"
  chains_differ e = chains_apart (sym e)

  -- A state without the rules of an address in the two chains, in both families, and with the other
  -- chains as they were.
  abbrev pub Forgotten : (server_id ip : Text) → F → F → Type 0
  Forgotten server_id ip s t =
      let comment = fail2ban_rule_comment server_id ip in
      (rules t ipv4 (codes "INPUT") ≡ left tables comment ipv4 (rules s ipv4 (codes "INPUT")))
      × (rules t ipv6 (codes "INPUT") ≡ left tables comment ipv6 (rules s ipv6 (codes "INPUT")))
      × (rules t ipv4 (codes "FORWARD") ≡ left tables comment ipv4 (rules s ipv4 (codes "FORWARD")))
      × (rules t ipv6 (codes "FORWARD") ≡ left tables comment ipv6 (rules s ipv6 (codes "FORWARD")))
      × ((family other : Text)
          → other ≢ codes "INPUT"
          → other ≢ codes "FORWARD"
          → rules t family other ≡ rules s family other)

  pub forget-left :
      (server_id ip : Text) (s : F)
      → Short s (codes "INPUT")
      → Short s (codes "FORWARD")
      → Forgotten server_id ip s (forget tables server_id ip s)
  unfolding forget
  forget-left server_id ip s (input4, input6) (forward4, forward6) =
      let rest = codes "oResolver:Fail2Ban:" ++ (server_id ++ (b':' ∷ ip)) in
      let first =
        delete_rule_by_comment-left tables rules law (codes "INPUT") b'G' rest refl
          (λ e. ground arith) s (law.input ipv4) (law.input ipv6) input4 input6 in
      let t = (delete_rule_by_comment tables (codes "INPUT") filter_table (b'G' ∷ rest) s).0 in
      let kept4 = first.2 ipv4 (codes "FORWARD") chains_apart in
      let kept6 = first.2 ipv6 (codes "FORWARD") chains_apart in
      let second =
        delete_rule_by_comment-left tables rules law (codes "FORWARD") b'G' rest refl
          (λ e. ground arith) t (law.forward ipv4) (law.forward ipv6)
          (subst (λ l. suc (length l) < int64_limit) (sym kept4) forward4)
          (subst (λ l. suc (length l) < int64_limit) (sym kept6) forward6) in
      let comment = fail2ban_rule_comment server_id ip in
      (
        second.2 ipv4 (codes "INPUT") chains_differ ∙ first.0,
        second.2 ipv6 (codes "INPUT") chains_differ ∙ first.1,
        second.0 ∙ ap (left tables comment ipv4) kept4,
        second.1 ∙ ap (left tables comment ipv6) kept6,
        λ family other input forward. second.2 family other forward ∙ first.2 family other input,
      )
