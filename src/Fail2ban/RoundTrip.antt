-- ===== src/Fail2ban/RoundTrip.antt =====
-- Banning an address and lifting the ban: the firewall is as if only the ban had been lifted.
use go_resolver.Base.{
  All, Lacks, Text, ◌≡◌, ◌≢◌, ◌⊎◌, inl, inr, refl, sym, ap, ◌∙◌, subst, Bool, Bool-cases, true,
  false, Option, none, some, List, [], ◌∷◌, ◌++◌, codes, ◌===◌, ===_iff, ===_apart, if_ind,
  Option_ind,
}
use go_resolver.Base.Int.{ℤ}
use go_resolver.Base.Search.{includes}
use go_resolver.Update.Numbers.{trim_space}
use go_resolver.Firewall.{Iptables, IsIptables, ipv4, ipv6}
use go_resolver.Firewall.Comments.{line_number}
use go_resolver.Firewall.Comments.Deleted.{without}
use go_resolver.Firewall.Comments.Took.{left}
use go_resolver.Firewall.Families.{Addresses, firewall_family_for_value}
use go_resolver.Firewall.Rules.{add_rule}
use go_resolver.Fail2ban.{
  Row, unreadable, missing, present, Bans, Clock, World, Policy, fail2ban_rule_comment,
  fail2ban_rule, unban_fail2ban_ip, ban_new, ban_row, ban_fail2ban_ip,
}
use go_resolver.Fail2ban.Unban.{Short, Forgotten, forget-left}
use go_resolver.Fail2ban.Ruled.{Ruled, add_rule-Ruled}
use go_resolver.Fail2ban.Lost.{unban_fail2ban_ip-firewall}

without-append :
    (comment : Text) (added rules : List Text)
    → All (λ rule. includes rule comment ≡ true) added
    → without comment (added ++ rules) ≡ without comment rules
unfolding without
without-append comment [] rules h = refl
without-append comment (rule ∷ added) rules (h, hs) = rw h (without-append comment added rules hs)

module _ {F D Time : Type 0} (tables : Iptables F) (rules : F → Text → Text → List Text)
    (law : IsIptables tables rules (λ line. line_number line ≡ none)) (bans : Bans D Time)
    (net : Addresses) (equal_fold : Text → Text → Bool)
    (same : equal_fold (codes "insert") (codes "insert") ≡ true) (clock : Clock Time) where
  -- What a ban without an error makes of the firewall: nothing, or more rules.
  abbrev pub Banned : Text → F → F → Type 0
  Banned comment s t = (t ≡ s) ⊎ Ruled tables rules law net equal_fold same comment s t

  ban_new-Banned :
      (p : Policy) (family ip dest_ip : Text) (hits : ℤ) (now expires : Time) (w : World F D)
      → Lacks 10 (fail2ban_rule_comment p.server_id ip)
      → let out = ban_new tables bans net equal_fold clock p family ip dest_ip hits now expires w in
        out.1 ≡ none → Banned (fail2ban_rule_comment p.server_id ip) w.firewall out.0.firewall
  unfolding ban_new
  ban_new-Banned p family ip dest_ip hits now expires w line =
      let comment = fail2ban_rule_comment p.server_id ip in
      let tried =
        add_rule tables net equal_fold (fail2ban_rule family ip dest_ip comment) w.firewall in
      let kept : World F D = record { firewall = tried.0; database = w.database } in
      let stored =
        bans.put p.server_id ip hits now expires (codes "status=" ++ p.status_codes) w.database in
      let both : World F D = record { firewall = tried.0; database = stored.0 } in
      Option_ind
        (λ (r : World F D × Option Text). r.1 ≡ none → Banned comment w.firewall r.0.firewall)
        tried.1 (both, stored.1) (λ e. (kept, some e))
        (λ e h. inr (
          add_rule-Ruled tables rules law net equal_fold same family ip dest_ip p.server_id
            w.firewall line e))
        (λ e k h. cc)

  ban_row-Banned :
      (p : Policy) (family ip dest_ip : Text) (hits : ℤ) (now expires : Time) (row : Row Time)
      (w : World F D)
      → Lacks 10 (fail2ban_rule_comment p.server_id ip)
      → let out =
          ban_row tables bans net equal_fold clock p family ip dest_ip hits now expires row w in
        out.1 ≡ none → Banned (fail2ban_rule_comment p.server_id ip) w.firewall out.0.firewall
  unfolding ban_row
  ban_row-Banned p family ip dest_ip hits now expires (unreadable e) w line = λ h. cc
  ban_row-Banned p family ip dest_ip hits now expires missing w line =
      ban_new-Banned p family ip dest_ip hits now expires w line
  ban_row-Banned p family ip dest_ip hits now expires (present none) w line =
      ban_new-Banned p family ip dest_ip hits now expires w line
  ban_row-Banned p family ip dest_ip hits now expires (present (some end)) w line =
      if_ind
        (λ (r : World F D × Option Text).
          r.1 ≡ none → Banned (fail2ban_rule_comment p.server_id ip) w.firewall r.0.firewall)
        (clock.after end now) _ _ (λ e h. inl refl)
        (λ e h. ban_new-Banned p family ip dest_ip hits now expires w line h)

  ban_fail2ban_ip-Banned :
      (quote : Text → Text) (p : Policy) (ip dest_ip : Text) (hits : ℤ) (now : Time) (w : World F D)
      → Lacks 10 (fail2ban_rule_comment p.server_id ip)
      → let out = ban_fail2ban_ip tables bans net equal_fold clock quote p ip dest_ip hits now w in
        out.1 ≡ none → Banned (fail2ban_rule_comment p.server_id ip) w.firewall out.0.firewall
  unfolding ban_fail2ban_ip
  ban_fail2ban_ip-Banned quote p ip dest_ip hits now w line =
      let family = firewall_family_for_value net ip in
      if_ind
        (λ (r : World F D × Option Text).
          r.1 ≡ none → Banned (fail2ban_rule_comment p.server_id ip) w.firewall r.0.firewall)
        (family === []) _ _ (λ e h. cc)
        (λ e h.
          ban_row-Banned p family ip dest_ip hits now (clock.later now p.ban_time_seconds)
            (bans.find p.server_id ip w.database) w line h)

  left_ruled :
      (comment f : Text) (s t : F)
      → Banned comment s t
      → left tables comment f (rules t f (codes "INPUT"))
        ≡ left tables comment f (rules s f (codes "INPUT"))
  left_ruled comment f s t (inl e) = ap (λ u. left tables comment f (rules u f (codes "INPUT"))) e
  left_ruled comment f s t (inr (g, added, there, has_it, first, rest)) =
      elim (Bool-cases (f === g)) [
        | inl y ↦
            subst
              (λ x.
                left tables comment x (rules t x (codes "INPUT"))
                ≡ left tables comment x (rules s x (codes "INPUT")))
              (sym ((===_iff f g).0 y))
              (ap (left tables comment g) first
                ∙ rw there (without-append comment added (rules s g (codes "INPUT")) has_it))
        | inr n ↦ ap (left tables comment f) (rest f (codes "INPUT") (inl (===_apart n)))
      ]

  Banned-other :
      (comment f other : Text) (s t : F)
      → Banned comment s t
      → other ≢ codes "INPUT"
      → rules t f other ≡ rules s f other
  Banned-other comment f other s t (inl e) apart = ap (λ u. rules u f other) e
  Banned-other comment f other s t (inr (g, added, there, has_it, first, rest)) apart =
      rest f other (inr apart)

  Forgotten-Banned :
      (server_id ip : Text) (s t u : F)
      → Banned (fail2ban_rule_comment server_id ip) s t
      → Forgotten tables rules law server_id ip t u
      → Forgotten tables rules law server_id ip s u
  unfolding ◌===◌
  Forgotten-Banned server_id ip s t u banned (a, b, c, d, e) =
      let comment = fail2ban_rule_comment server_id ip in
      let input = λ (f : Text). left_ruled comment f s t banned in
      let other = λ (f : Text).
        ap (left tables comment f)
          (Banned-other comment f (codes "FORWARD") s t banned (===_apart refl)) in
      (
        a ∙ input ipv4,
        b ∙ input ipv6,
        c ∙ other ipv4,
        d ∙ other ipv6,
        λ f chain not_input not_forward.
            e f chain not_input not_forward ∙ Banned-other comment f chain s t banned not_input,
      )

  -- Lifting the ban of an address that was banned without an error leaves the firewall as lifting it alone
  -- would have: what the ban added is gone, and no other rule than those with the comment. The comment
  -- has no line break, making the table succeeds, the address is not blank, and no chain has more rules
  -- than fit in an `int`.
  pub ban_fail2ban_ip-unban :
      (quote : Text → Text) (p : Policy) (ip dest_ip : Text) (hits : ℤ) (now : Time) (w : World F D)
      → Lacks 10 (fail2ban_rule_comment p.server_id ip)
      → let out = ban_fail2ban_ip tables bans net equal_fold clock quote p ip dest_ip hits now w in
        out.1 ≡ none
        → (bans.ensure out.0.database).1 ≡ none
        → (trim_space ip === []) ≡ false
        → Short tables rules law out.0.firewall (codes "INPUT")
        → Short tables rules law out.0.firewall (codes "FORWARD")
        → Forgotten tables rules law p.server_id ip w.firewall
            (unban_fail2ban_ip tables bans p.server_id ip out.0).0.firewall
  ban_fail2ban_ip-unban quote p ip dest_ip hits now w line clean made full input forward =
      let out = ban_fail2ban_ip tables bans net equal_fold clock quote p ip dest_ip hits now w in
      let t = out.0.firewall in
      Forgotten-Banned p.server_id ip w.firewall t
        (unban_fail2ban_ip tables bans p.server_id ip out.0).0.firewall
        (ban_fail2ban_ip-Banned quote p ip dest_ip hits now w line clean)
        (subst (Forgotten tables rules law p.server_id ip t)
          (sym (
            unban_fail2ban_ip-firewall tables rules law bans net equal_fold clock p.server_id ip
              out.0 made full))
          (forget-left tables rules law p.server_id ip t input forward))
