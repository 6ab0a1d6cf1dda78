-- ===== src/Fail2ban/Cleanup.antt =====
-- What `cleanupExpiredFail2BanBans` does to the firewall: of the two chains, the rules that contain the
-- comment of an expired row go, and the others stay in their order.
use go_resolver.Base.{
  Text, ◌<◌, ◌≤◌, suc, ◌≡◌, refl, sym, ap, ◌∙◌, subst, arith, Bool, true, false, ◌||◌, Option, none,
  some, List, [], ◌∷◌, codes, length, if◌then◌else◌,
}
use go_resolver.Base.Int.{int64_limit}
use go_resolver.Base.Search.{includes}
use go_resolver.Firewall.{Iptables, IsIptables, ipv4, ipv6}
use go_resolver.Firewall.Comments.{line_number}
use go_resolver.Firewall.Comments.Deleted.{without}
use go_resolver.Fail2ban.{
  Bans, World, fail2ban_rule_comment, forget, cleanup_rows, cleanup_expired_fail2ban_bans,
}
use go_resolver.Fail2ban.Unban.{Short, forget-left}

-- Whether a rule has the comment of a row that can be read.
unfoldable pub names_any : List (Option (Text × Text)) → Text → Bool
names_any [] rule = false
names_any (none ∷ rows) rule = names_any rows rule
names_any (some (server_id, ip) ∷ rows) rule =
    includes rule (fail2ban_rule_comment server_id ip) || names_any rows rule

-- The rules without any of these comments.
unfoldable pub without_any : List (Option (Text × Text)) → List Text → List Text
unfolding names_any
without_any rows [] = []
without_any rows (rule ∷ rules) =
    let rest = without_any rows rules in if names_any rows rule then rest else rule ∷ rest

without_any_nil : (rules : List Text) → without_any [] rules ≡ rules
unfolding without_any
without_any_nil [] = refl
without_any_nil (rule ∷ rules) = ap (λ l. rule ∷ l) (without_any_nil rules)

without_any-none :
    (rows : List (Option (Text × Text))) (rules : List Text)
    → without_any (none ∷ rows) rules ≡ without_any rows rules
unfolding without_any
without_any-none rows [] = refl
without_any-none rows (rule ∷ rules) = ground (arith, without_any-none rows rules)

without_any-without :
    (server_id ip : Text) (rows : List (Option (Text × Text))) (rules : List Text)
    → without_any rows (without (fail2ban_rule_comment server_id ip) rules)
      ≡ without_any (some (server_id, ip) ∷ rows) rules
unfolding without_any without
without_any-without server_id ip rows [] = refl
without_any-without server_id ip rows (rule ∷ rules) =
    ground (arith, without_any-without server_id ip rows rules)

length-without :
    (comment : Text) (rules : List Text) → length (without comment rules) ≤ length rules
unfolding without
length-without comment [] = omega arith
length-without comment (rule ∷ rules) = ground (arith, length-without comment rules)

module _ {F D Time : Type 0} (tables : Iptables F) (rules : F → Text → Text → List Text)
    (law : IsIptables tables rules (λ line. line_number line ≡ none)) (bans : Bans D Time)
    (there4 : tables.available ipv4 ≡ true) (there6 : tables.available ipv6 ≡ true) where
  -- A state whose chains are made from those of another one.
  abbrev pub Cleared : (List Text → List Text) → F → F → Type 0
  Cleared f s t =
      (rules t ipv4 (codes "INPUT") ≡ f (rules s ipv4 (codes "INPUT")))
      × (rules t ipv6 (codes "INPUT") ≡ f (rules s ipv6 (codes "INPUT")))
      × (rules t ipv4 (codes "FORWARD") ≡ f (rules s ipv4 (codes "FORWARD")))
      × (rules t ipv6 (codes "FORWARD") ≡ f (rules s ipv6 (codes "FORWARD")))

  forget-Cleared :
      (server_id ip : Text) (s : F)
      → Short tables rules law s (codes "INPUT")
      → Short tables rules law s (codes "FORWARD")
      → Cleared (without (fail2ban_rule_comment server_id ip)) s (forget tables server_id ip s)
  forget-Cleared server_id ip s input forward =
      let (a, b, c, d, _) = forget-left tables rules law server_id ip s input forward in
      let comment = fail2ban_rule_comment server_id ip in
      let at : (e : Bool) (texts : List Text)
          → e ≡ true
          → (if e then without comment texts else texts) ≡ without comment texts =
        λ e texts h. ap (λ x. if x then without comment texts else texts) h in
      (
        a ∙ at (tables.available ipv4) (rules s ipv4 (codes "INPUT")) there4,
        b ∙ at (tables.available ipv6) (rules s ipv6 (codes "INPUT")) there6,
        c ∙ at (tables.available ipv4) (rules s ipv4 (codes "FORWARD")) there4,
        d ∙ at (tables.available ipv6) (rules s ipv6 (codes "FORWARD")) there6,
      )

  Short-Cleared :
      (comment : Text) (s t : F)
      → Cleared (without comment) s t
      → Short tables rules law s (codes "INPUT")
      → Short tables rules law s (codes "FORWARD")
      → Short tables rules law t (codes "INPUT") × Short tables rules law t (codes "FORWARD")
  Short-Cleared comment s t (a, b, c, d) (h, k) (l, m) =
      let small : (x y : List Text)
          → x ≡ without comment y
          → suc (length y) < int64_limit
          → suc (length x) < int64_limit =
        λ x y e n.
          subst (λ z. suc (length z) < int64_limit) (sym e)
            (omega (arith, length-without comment y)) in
      ((small _ _ a h, small _ _ b k), (small _ _ c l, small _ _ d m))

  Cleared-then :
      (server_id ip : Text) (rows : List (Option (Text × Text))) (s t u : F)
      → Cleared (without (fail2ban_rule_comment server_id ip)) s t
      → Cleared (without_any rows) t u
      → Cleared (without_any (some (server_id, ip) ∷ rows)) s u
  Cleared-then server_id ip rows s t u (a, b, c, d) (a', b', c', d') =
      let both : (x y z : List Text)
          → y ≡ without (fail2ban_rule_comment server_id ip) x
          → z ≡ without_any rows y
          → z ≡ without_any (some (server_id, ip) ∷ rows) x =
        λ x y z e f. f ∙ ap (without_any rows) e ∙ without_any-without server_id ip rows x in
      (both _ _ _ a a', both _ _ _ b b', both _ _ _ c c', both _ _ _ d d')

  cleanup_rows-Cleared :
      (rows : List (Option (Text × Text))) (w : World F D)
      → Short tables rules law w.firewall (codes "INPUT")
      → Short tables rules law w.firewall (codes "FORWARD")
      → Cleared (without_any rows) w.firewall (cleanup_rows tables bans rows w).firewall
  unfolding cleanup_rows
  cleanup_rows-Cleared [] w input forward = (
    sym (without_any_nil _),
    sym (without_any_nil _),
    sym (without_any_nil _),
    sym (without_any_nil _),
  )
  cleanup_rows-Cleared (none ∷ rows) w input forward =
      let (a, b, c, d) = cleanup_rows-Cleared rows w input forward in
      (
        a ∙ sym (without_any-none rows _),
        b ∙ sym (without_any-none rows _),
        c ∙ sym (without_any-none rows _),
        d ∙ sym (without_any-none rows _),
      )
  cleanup_rows-Cleared (some (server_id, ip) ∷ rows) w input forward =
      let t = forget tables server_id ip w.firewall in
      let gone = forget-Cleared server_id ip w.firewall input forward in
      let (input', forward') =
        Short-Cleared (fail2ban_rule_comment server_id ip) w.firewall t gone input forward in
      let v : World F D = record {
        firewall = t;
        database = (bans.remove server_id ip w.database).0;
      } in
      Cleared-then server_id ip rows w.firewall t (cleanup_rows tables bans rows v).firewall gone
        (cleanup_rows-Cleared rows v input' forward')

  -- What comes of reading the rows: an error, which ends it, or the rows to clear.
  abbrev pub Cleaned :
      World F D → List (Option (Text × Text)) → World F D × Option Text → Option Text → Type 0
  Cleaned w rows out none = (out.1 ≡ none) × Cleared (without_any rows) w.firewall out.0.firewall
  Cleaned w rows out (some e) = out ≡ (w, some e)

  Cleaned-elim :
      (w : World F D) (rows : List (Option (Text × Text)))
      → Short tables rules law w.firewall (codes "INPUT")
      → Short tables rules law w.firewall (codes "FORWARD")
      → (failed : Option Text)
      → Cleaned w rows
          (elim failed [ some e ↦ (w, some e) | none ↦ (cleanup_rows tables bans rows w, none) ])
          failed
  Cleaned-elim w rows input forward none = (refl, cleanup_rows-Cleared rows w input forward)
  Cleaned-elim w rows input forward (some e) = refl

  -- Where the expired rows can be read, the clean-up leaves of the two chains, in both families, the rules
  -- that contain the comment of no expired row, in their order; where they cannot, nothing changes. Both
  -- programs are there, and no chain has more rules than fit in an `int`.
  pub cleanup_expired_fail2ban_bans-Cleaned :
      (now : Time) (w : World F D)
      → Short tables rules law w.firewall (codes "INPUT")
      → Short tables rules law w.firewall (codes "FORWARD")
      → Cleaned w
          (bans.expired now w.database).1
          (cleanup_expired_fail2ban_bans tables bans now w)
          (bans.expired now w.database).0
  unfolding cleanup_expired_fail2ban_bans
  cleanup_expired_fail2ban_bans-Cleaned now w input forward =
      Cleaned-elim w (bans.expired now w.database).1 input forward (bans.expired now w.database).0
