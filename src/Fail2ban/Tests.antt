-- ===== src/Fail2ban/Tests.antt =====
-- Examples of the bans: the table keeps the rows of one server, by the address, with the time they expire.
use go_resolver.Base.{
  inl, not, ◌==◌, Bool, Lacks, ◌++◌, Text, ℕ, ◌+◌, ◌≡◌, refl, arith, true, false, ◌&&◌, Option,
  none, some, List, [], ◌∷◌, codes, ◌===◌, ===_refl, if◌then◌else◌, lookup, insert, erase, ltb,
  strip_prefix,
}
use go_resolver.Base.Int.{ℤ, pos, negsuc}
use go_resolver.Update.Numbers.{trim_space, is_go_space}
use go_resolver.Base.Trim.{trim_by}
use go_resolver.Base.Search.{includes}
use go_resolver.Firewall.{ipv4}
use go_resolver.Firewall.Comments.Deleted.{has}
use go_resolver.Firewall.Families.{
  Addresses, normalize_firewall_family, agree, infer_firewall_family, firewall_family_for_value,
}
use go_resolver.Firewall.Rules.{add_rule}
use go_resolver.Firewall.Example.{put, run_rule, Chains, example_tables, example_rules, example_law}
use go_resolver.Fail2ban.{
  Row, missing, present, Bans, Clock, World, Policy, fail2ban_rule_comment, unban_fail2ban_ip,
  ban_fail2ban_ip, cleanup_expired_fail2ban_bans,
}
use go_resolver.Fail2ban.Unban.{Forgotten}
use go_resolver.Fail2ban.Lost.{unban_fail2ban_ip-lost}
use go_resolver.Fail2ban.RoundTrip.{ban_fail2ban_ip-unban}
use go_resolver.Fail2ban.Cleanup.{Cleaned, cleanup_expired_fail2ban_bans-Cleaned}

abbrev Rows : Type 0
Rows = List (Text × ℕ)

abbrev find_row : Text → Rows → Row ℕ
find_row ip rows = elim (lookup ip rows) [ none ↦ missing | some end ↦ present (some end) ]

abbrev expired_rows : ℕ → Rows → List (Option (Text × Text))
expired_rows now [] = []
expired_rows now ((ip, end) ∷ rows) =
    let rest = expired_rows now rows in if ltb now end then rest else some (codes "7", ip) ∷ rest

abbrev table : Bans Rows ℕ
table = record {
  ensure = λ rows. (rows, none);
  find = λ server_id ip rows. find_row ip rows;
  extend = λ hits end server_id ip rows. insert ip end rows;
  put = λ server_id ip hits now end reason rows. (insert ip end rows, none);
  remove = λ server_id ip rows. (erase ip rows, none);
  expired = λ now rows. (none, expired_rows now rows);
}

abbrev seconds_later : ℕ → ℤ → ℕ
seconds_later now (pos n) = now + n
seconds_later now (negsuc n) = now

abbrev clock : Clock ℕ
clock = record { after = λ a b. ltb b a; later = seconds_later }

-- All addresses are of IPv4.
abbrev addresses : Addresses
addresses = record { lower = λ s. s; address = λ s. some true; network = λ s. none }

abbrev verb_q : Text → Text
verb_q s = b'"' ∷ (s ++ codes "\"")

abbrev policy : Policy
policy = record { server_id = codes "7"; ban_time_seconds = pos 3_600; status_codes = codes "403" }

abbrev chains : Chains
chains family chain =
    if (family === ipv4) && (chain === codes "INPUT")
    then fail2ban_rule_comment (codes "7") (codes "1.2.3.4")
      ∷ fail2ban_rule_comment (codes "7") (codes "1.2.3.45")
      ∷ []
    else []

-- The addresses 1.2.3.4 and 1.2.3.45 are banned until 5000.
abbrev world : World Chains Rows
world = record {
  firewall = chains;
  database = (codes "1.2.3.4", 5_000) ∷ (codes "1.2.3.45", 5_000) ∷ [];
}

-- Lifting the ban of 1.2.3.4, and banning 1.2.3.45 again.
abbrev again : World Chains Rows
again =
    let lifted = (unban_fail2ban_ip example_tables table (codes "7") (codes "1.2.3.4") world).0 in
    (ban_fail2ban_ip example_tables table addresses ◌===◌ clock verb_q policy (codes "1.2.3.45") []
      (pos 9) 4_000 lifted).0

unban_fail2ban_ip-lost_example :
    (has
        (fail2ban_rule_comment (codes "7") (codes "1.2.3.45"))
        (again.firewall ipv4 (codes "INPUT"))
      ≡ false)
    × (has
          (fail2ban_rule_comment (codes "7") (codes "1.2.3.45"))
          (again.firewall ipv4 (codes "FORWARD"))
        ≡ false)
unfolding lookup erase firewall_family_for_value trim_space trim_by is_go_space unban_fail2ban_ip
    includes strip_prefix ◌===◌
unban_fail2ban_ip-lost_example =
    unban_fail2ban_ip-lost example_tables example_rules example_law table addresses ◌===◌ clock
      verb_q policy (codes "1.2.3.4") (codes "5") [] ipv4 (pos 9) 4_000 5_000 world (inl refl) refl
      (omega arith, omega arith) (omega arith, omega arith) refl refl refl refl refl

lacks_line : Text → Bool
lacks_line [] = true
lacks_line (c ∷ s) = not (c == 10) && lacks_line s

lacks_line-Lacks : (s : Text) → lacks_line s ≡ true → Lacks 10 s
unfolding lacks_line
lacks_line-Lacks [] h = tt
lacks_line-Lacks (c ∷ s) h = (λ e. ground (arith), lacks_line-Lacks s (ground arith))

abbrev banned : World Chains Rows × Option Text
banned =
    ban_fail2ban_ip example_tables table addresses ◌===◌ clock verb_q policy (codes "9.9.9.9") []
      (pos 9) 4_000 world

ban_fail2ban_ip-unban_example :
    Forgotten example_tables example_rules example_law
      (codes "7")
      (codes "9.9.9.9")
      chains
      (unban_fail2ban_ip example_tables table (codes "7") (codes "9.9.9.9") banned.0).0.firewall
unfolding lookup firewall_family_for_value trim_space trim_by is_go_space ban_fail2ban_ip add_rule
    agree normalize_firewall_family infer_firewall_family put run_rule includes strip_prefix
    lacks_line ◌===◌
ban_fail2ban_ip-unban_example =
    ban_fail2ban_ip-unban example_tables example_rules example_law table addresses ◌===◌
      (===_refl (codes "insert")) clock verb_q policy (codes "9.9.9.9") [] (pos 9) 4_000 world
      (lacks_line-Lacks (fail2ban_rule_comment (codes "7") (codes "9.9.9.9")) refl) refl refl refl
      (omega arith, omega arith) (omega arith, omega arith)

cleanup_expired_fail2ban_bans-Cleaned_example :
    Cleaned example_tables example_rules example_law table refl refl world
      (some (codes "7", codes "1.2.3.4") ∷ some (codes "7", codes "1.2.3.45") ∷ [])
      (cleanup_expired_fail2ban_bans example_tables table 6_000 world)
      none
unfolding ◌===◌
cleanup_expired_fail2ban_bans-Cleaned_example =
    cleanup_expired_fail2ban_bans-Cleaned example_tables example_rules example_law table refl refl
      6_000 world (omega arith, omega arith) (omega arith, omega arith)
