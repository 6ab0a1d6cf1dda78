-- ===== src/Firewall/Tests.antt =====
-- Examples of the firewall: a chain with the rules of two addresses, and a deletion by a comment.
use go_resolver.Base.{
  Text, ◌≡◌, ◌≢◌, refl, arith, true, false, ◌&&◌, ◌||◌, Option, none, some, [], ◌∷◌, codes, ◌===◌,
  if◌then◌else◌, strip_prefix,
}
use go_resolver.Base.Search.{includes}
use go_resolver.Firewall.{ipv4, ipv6}
use go_resolver.Firewall.Comments.{delete_rule_by_comment}
use go_resolver.Firewall.Comments.Took.{left, seen}
use go_resolver.Firewall.Comments.Deleted.{without, filter_table}
use go_resolver.Firewall.Comments.Exactly.{outcome, delete_rule_by_comment-left}
use go_resolver.Firewall.Families.{
  Addresses, normalize_firewall_family, firewall_family_for_value, infer_firewall_family,
}
use go_resolver.Firewall.Families.Agreement.{Agreed, infer_firewall_family-Agreed}
use go_resolver.Firewall.Example.{Chains, example_tables, example_rules, example_law}

abbrev short_rule : Text
short_rule = codes "DROP tcp /* GoResolver:Fail2Ban:7:1.2.3.4 */"

abbrev long_rule : Text
long_rule = codes "DROP tcp /* GoResolver:Fail2Ban:7:1.2.3.45 */"

abbrev accept_rule : Text
accept_rule = codes "ACCEPT tcp"

chains : Chains
chains family chain =
    if (family === ipv4) && (chain === codes "INPUT")
    then short_rule ∷ accept_rule ∷ long_rule ∷ []
    else []

abbrev comment_tail : Text
comment_tail = codes "oResolver:Fail2Ban:7:1.2.3.45"

abbrev deletion : Chains × Option Text
deletion =
    delete_rule_by_comment example_tables (codes "INPUT") filter_table (b'G' ∷ comment_tail) chains

delete_rule_by_comment-left_example :
    (deletion.0 ipv4 (codes "INPUT")
      ≡ left example_tables (b'G' ∷ comment_tail) ipv4 (chains ipv4 (codes "INPUT")))
    × (deletion.0 ipv6 (codes "INPUT")
        ≡ left example_tables (b'G' ∷ comment_tail) ipv6 (chains ipv6 (codes "INPUT")))
    × ((family other : Text)
        → other ≢ codes "INPUT"
        → deletion.0 family other ≡ chains family other)
    × (deletion.1
        ≡ outcome
            (seen example_tables (b'G' ∷ comment_tail) ipv6 (chains ipv6 (codes "INPUT"))
              || seen example_tables (b'G' ∷ comment_tail) ipv4 (chains ipv4 (codes "INPUT")))
            (codes "INPUT")
            (b'G' ∷ comment_tail))
unfolding chains ◌===◌
delete_rule_by_comment-left_example =
    delete_rule_by_comment-left example_tables example_rules example_law (codes "INPUT") b'G'
      comment_tail refl (λ e. ground arith) chains (example_law.input ipv4) (example_law.input ipv6)
      (omega arith) (omega arith)

longer_rule_kept :
    without (b'G' ∷ comment_tail) (short_rule ∷ accept_rule ∷ long_rule ∷ [])
    ≡ short_rule ∷ accept_rule ∷ []
unfolding without includes strip_prefix
longer_rule_kept = refl

-- Addresses with a colon are of IPv6.
abbrev addresses : Addresses
addresses = record {
  lower = λ s. s;
  address = λ s. if s === codes "1.2.3.4" then some true else some false;
  network = λ s. none;
}

infer_firewall_family-Agreed_example :
    Agreed
      (normalize_firewall_family addresses []
        ∷ firewall_family_for_value addresses (codes "1.2.3.4")
        ∷ firewall_family_for_value addresses (codes "::1")
        ∷ firewall_family_for_value addresses []
        ∷ [])
      (infer_firewall_family addresses [] (codes "1.2.3.4") (codes "::1") [])
infer_firewall_family-Agreed_example =
    infer_firewall_family-Agreed addresses [] (codes "1.2.3.4") (codes "::1") []
