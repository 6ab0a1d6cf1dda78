-- ===== src/Fail2ban/Lost.antt =====
-- The comment of an address is the beginning of the comment of every address that begins with it, as
-- 1.2.3.4 begins 1.2.3.45: lifting the ban of the one takes the rule of the other away, whose row stays.
use go_resolver.Base.{
  ◌⊎◌, inl, inr, subst, Text, ◌≡◌, refl, sym, ap, ◌∙◌, arith, Bool, true, false, none, some, List,
  [], ◌∷◌, ◌++◌, append_assoc, codes, ◌===◌, if◌then◌else◌,
}
use go_resolver.Base.Int.{ℤ}
use go_resolver.Base.Search.{includes-append}
use go_resolver.Update.Numbers.{trim_space}
use go_resolver.Firewall.{Iptables, IsIptables, ipv4, ipv6}
use go_resolver.Firewall.Comments.{line_number}
use go_resolver.Firewall.Comments.Deleted.{without, has}
use go_resolver.Firewall.Comments.Took.{left}
use go_resolver.Firewall.Families.{Addresses, firewall_family_for_value}
use go_resolver.Fail2ban.{
  present, Bans, Clock, World, Policy, fail2ban_rule_comment, forget, unban_ensured,
  unban_fail2ban_ip, ban_row, ban_fail2ban_ip,
}
use go_resolver.Fail2ban.Unban.{Short, forget-left}

-- No rule has a longer comment where the rules with the shorter one are gone.
pub has-without :
    (comment more : Text) (rules : List Text)
    → has (comment ++ more) (without comment rules) ≡ false
unfolding has without
has-without comment more [] = refl
has-without comment more (rule ∷ rules) =
    ground (arith, includes-append rule comment more, has-without comment more rules)

comment-append :
    (server_id ip more : Text)
    → fail2ban_rule_comment server_id (ip ++ more) ≡ fail2ban_rule_comment server_id ip ++ more
comment-append server_id ip more =
    ap (λ t. codes "GoResolver:Fail2Ban:" ++ t) (sym (append_assoc server_id (b':' ∷ ip) more))

module _ {F D Time : Type 0} (tables : Iptables F) (rules : F → Text → Text → List Text)
    (law : IsIptables tables rules (λ line. line_number line ≡ none)) (bans : Bans D Time)
    (net : Addresses) (equal_fold : Text → Text → Bool) (clock : Clock Time) where
  forget_longer :
      (server_id ip more family : Text) (s : F)
      → (family ≡ ipv4) ⊎ (family ≡ ipv6)
      → tables.available family ≡ true
      → Short tables rules law s (codes "INPUT")
      → Short tables rules law s (codes "FORWARD")
      → let gone = forget tables server_id ip s in
        let comment = fail2ban_rule_comment server_id (ip ++ more) in
        (has comment (rules gone family (codes "INPUT")) ≡ false)
        × (has comment (rules gone family (codes "FORWARD")) ≡ false)
  forget_longer server_id ip more family s of there input forward =
      let comment = fail2ban_rule_comment server_id ip in
      let whole = fail2ban_rule_comment server_id (ip ++ more) in
      let forgot = forget-left tables rules law server_id ip s input forward in
      let none_left : (x texts : List Text)
          → x ≡ left tables comment family texts
          → has whole x ≡ false =
        λ x texts e.
          ap (λ c. has c x) (comment-append server_id ip more)
          ∙ ap (has (comment ++ more))
              (e ∙ ap (λ b. if b then without comment texts else texts) there)
          ∙ has-without comment more texts in
      let gone = forget tables server_id ip s in
      let at : (chain : Text)
          → (rules gone ipv4 chain ≡ left tables comment ipv4 (rules s ipv4 chain))
          → (rules gone ipv6 chain ≡ left tables comment ipv6 (rules s ipv6 chain))
          → rules gone family chain ≡ left tables comment family (rules s family chain) =
        λ chain four six. elim of [
          | inl e ↦
              subst (λ f. rules gone f chain ≡ left tables comment f (rules s f chain)) (sym e) four
          | inr e ↦
              subst (λ f. rules gone f chain ≡ left tables comment f (rules s f chain)) (sym e) six
        ] in
      (
        none_left _ _ (at (codes "INPUT") forgot.0 forgot.1),
        none_left _ _ (at (codes "FORWARD") forgot.2 forgot.3),
      )

  pub unban_fail2ban_ip-firewall :
      (server_id ip : Text) (w : World F D)
      → (bans.ensure w.database).1 ≡ none
      → (trim_space ip === []) ≡ false
      → (unban_fail2ban_ip tables bans server_id ip w).0.firewall
        ≡ forget tables server_id ip w.firewall
  unfolding unban_fail2ban_ip unban_ensured
  unban_fail2ban_ip-firewall server_id ip w made full =
      rw (made, full, unban_fail2ban_ip, unban_ensured) refl

  ban_fail2ban_ip-extended :
      (quote : Text → Text) (p : Policy) (ip dest_ip : Text) (hits : ℤ) (now end : Time)
      (w : World F D)
      → (firewall_family_for_value net ip === []) ≡ false
      → bans.find p.server_id ip w.database ≡ present (some end)
      → clock.after end now ≡ true
      → (ban_fail2ban_ip tables bans net equal_fold clock quote p ip dest_ip hits now w).0.firewall
        ≡ w.firewall
  unfolding ban_fail2ban_ip ban_row
  ban_fail2ban_ip-extended quote p ip dest_ip hits now end w known row active =
      rw (known, row, active, ban_row) refl

  -- When the ban of an address is lifted, no rule is left for an address that begins with it, in the two
  -- chains of each family whose program is there, and as long as the row of that one has not expired,
  -- banning it again does not bring a rule back. Making the table succeeds, the address that is lifted
  -- is not blank, and no chain has more rules than fit in an `int`.
  pub unban_fail2ban_ip-lost :
      (quote : Text → Text) (p : Policy) (ip more dest_ip family : Text) (hits : ℤ) (now end : Time)
      (w : World F D)
      → (family ≡ ipv4) ⊎ (family ≡ ipv6)
      → tables.available family ≡ true
      → Short tables rules law w.firewall (codes "INPUT")
      → Short tables rules law w.firewall (codes "FORWARD")
      → (bans.ensure w.database).1 ≡ none
      → (trim_space ip === []) ≡ false
      → (firewall_family_for_value net (ip ++ more) === []) ≡ false
      → bans.find p.server_id
          (ip ++ more)
          (unban_fail2ban_ip tables bans p.server_id ip w).0.database
        ≡ present (some end)
      → clock.after end now ≡ true
      → let lifted = (unban_fail2ban_ip tables bans p.server_id ip w).0 in
        let again =
          (ban_fail2ban_ip tables bans net equal_fold clock quote p
            (ip ++ more)
            dest_ip
            hits
            now
            lifted).0 in
        let comment = fail2ban_rule_comment p.server_id (ip ++ more) in
        (has comment (rules again.firewall family (codes "INPUT")) ≡ false)
        × (has comment (rules again.firewall family (codes "FORWARD")) ≡ false)
  unban_fail2ban_ip-lost quote p ip more dest_ip family hits now end w of there input forward made
        full known row active =
      let lifted = (unban_fail2ban_ip tables bans p.server_id ip w).0 in
      let comment = fail2ban_rule_comment p.server_id (ip ++ more) in
      subst
        (λ f.
          (has comment (rules f family (codes "INPUT")) ≡ false)
          × (has comment (rules f family (codes "FORWARD")) ≡ false))
        (sym (
          ban_fail2ban_ip-extended quote p (ip ++ more) dest_ip hits now end lifted known row active
          ∙ unban_fail2ban_ip-firewall p.server_id ip w made full))
        (forget_longer p.server_id ip more family w.firewall of there input forward)
