-- ===== src/Fail2ban.antt =====
-- The bans of internal/services/serverconfiguration_fail2ban.go: an address that the policy of a server
-- bans has a rule in the firewall and a row in the table `fail2ban_bans`. The table is an interface of
-- the statements that the code gives to the database; sending mails is left out.
mod Unban
mod Lost
mod Ruled
mod RoundTrip
mod Cleanup
mod Tests
use go_resolver.Base.{
  Text, Bool, true, false, ◌&&◌, Option, none, some, List, [], ◌∷◌, ◌++◌, codes, ◌===◌,
  if◌then◌else◌,
}
use go_resolver.Base.Int.{ℤ, pos}
use go_resolver.Update.Numbers.{trim_space}
use go_resolver.Firewall.{Iptables}
use go_resolver.Firewall.Comments.{delete_rule_by_comment}
use go_resolver.Firewall.Families.{Addresses, firewall_family_for_value}
use go_resolver.Firewall.Rules.{IptablesRuleSpec, add_rule}

-- What reading the row of an address gives: an error, no row, or when it expires, which may be NULL.
pub data Row (Time : Type 0) : Type 0 where
  unreadable : Text → Row Time
  missing : Row Time
  present : Option Time → Row Time

-- The table: creating it, reading, and the statements that change it, with the message of an error.
-- A row that cannot be read is `none` among the expired ones.
pub record Bans (D Time : Type 0) : Type 0 where
  pub ensure : D → D × Option Text
  pub find : (server_id ip : Text) → D → Row Time
  pub extend : (hits : ℤ) (expires : Time) (server_id ip : Text) → D → D
  pub put :
      (server_id ip : Text) (hits : ℤ) (now expires : Time) (reason : Text) → D → D × Option Text
  pub remove : (server_id ip : Text) → D → D × Option Text
  pub expired : Time → D → Option Text × List (Option (Text × Text))

-- The times, and a time some seconds later.
pub record Clock (Time : Type 0) : Type 0 where
  pub after : Time → Time → Bool
  pub later : Time → ℤ → Time

pub record World (F D : Type 0) : Type 0 where
  pub firewall : F
  pub database : D

-- `fail2BanRuleComment`
abbrev pub fail2ban_rule_comment : (server_id ip : Text) → Text
fail2ban_rule_comment server_id ip = codes "GoResolver:Fail2Ban:" ++ (server_id ++ (b':' ∷ ip))

module _ {F : Type 0} (tables : Iptables F) where
  -- The rules of an address are deleted, whatever comes of it.
  unfoldable pub forget : (server_id ip : Text) → F → F
  forget server_id ip s =
      let comment = fail2ban_rule_comment server_id ip in
      let (t, _) = delete_rule_by_comment tables (codes "INPUT") (codes "filter") comment s in
      (delete_rule_by_comment tables (codes "FORWARD") (codes "filter") comment t).0

module _ {F D Time : Type 0} (tables : Iptables F) (bans : Bans D Time) where
  -- `UnbanFail2BanIP` behind `EnsureFail2BanTables`.
  unfoldable pub unban_ensured : (server_id ip : Text) → World F D → World F D × Option Text
  unfolding forget
  unban_ensured server_id ip w =
      let (e, failed) = bans.remove server_id ip w.database in
      let cleared : World F D = record {
        firewall = forget tables server_id ip w.firewall;
        database = e;
      } in
      if trim_space ip === [] then (w, none) else (cleared, failed)

  -- `UnbanFail2BanIP`
  unfoldable pub unban_fail2ban_ip : (server_id ip : Text) → World F D → World F D × Option Text
  unfolding unban_ensured
  unban_fail2ban_ip server_id ip w =
      let (d, failed) = bans.ensure w.database in
      let ready : World F D = record { firewall = w.firewall; database = d } in
      elim failed [ some e ↦ (ready, some e) | none ↦ unban_ensured server_id ip ready ]

  -- The loop of `cleanupExpiredFail2BanBans`.
  unfoldable pub cleanup_rows : List (Option (Text × Text)) → World F D → World F D
  unfolding forget
  cleanup_rows [] w = w
  cleanup_rows (none ∷ rows) w = cleanup_rows rows w
  cleanup_rows (some (server_id, ip) ∷ rows) w =
      let (d, _) = bans.remove server_id ip w.database in
      cleanup_rows rows (record { firewall = forget tables server_id ip w.firewall; database = d })

  -- `cleanupExpiredFail2BanBans`
  unfoldable pub cleanup_expired_fail2ban_bans : Time → World F D → World F D × Option Text
  unfolding cleanup_rows
  cleanup_expired_fail2ban_bans now w =
      let (failed, rows) = bans.expired now w.database in
      elim failed [ some e ↦ (w, some e) | none ↦ (cleanup_rows rows w, none) ]

-- The rule of a banned address.
abbrev pub fail2ban_rule : (family ip dest_ip comment : Text) → IptablesRuleSpec
fail2ban_rule family ip dest_ip comment = record {
  family = family;
  table = codes "filter";
  chain = codes "INPUT";
  action = codes "insert";
  position = pos 1;
  protocol = codes "tcp";
  in_interface = [];
  out_interface = [];
  source_ip = ip;
  dest_ip = dest_ip;
  source_port = pos 0;
  dest_port = pos 0;
  conn_limit = none;
  limit_rate = [];
  limit_burst = [];
  syn_only = false;
  conn_state = [];
  icmp_type = [];
  to_ip = [];
  to_port = pos 0;
  target = codes "DROP";
  comment = comment;
  log_prefix = [];
  log_level = [];
  reject_with = [];
  extra_args = [];
}

-- Of a policy, what a ban reads.
pub record Policy : Type 0 where
  pub server_id : Text
  pub ban_time_seconds : ℤ
  pub status_codes : Text

module _ {F D Time : Type 0} (tables : Iptables F) (bans : Bans D Time) (net : Addresses)
    (equal_fold : Text → Text → Bool) (clock : Clock Time) where
  -- The rule first, and the row if that went well.
  unfoldable pub ban_new :
      (p : Policy) (family ip dest_ip : Text) (hits : ℤ) (now expires : Time)
      → World F D
      → World F D × Option Text
  unfolding add_rule
  ban_new p family ip dest_ip hits now expires w =
      let comment = fail2ban_rule_comment p.server_id ip in
      let (f, failed) =
        add_rule tables net equal_fold (fail2ban_rule family ip dest_ip comment) w.firewall in
      let (d, refused) =
        bans.put p.server_id ip hits now expires (codes "status=" ++ p.status_codes) w.database in
      let ruled : World F D = record { firewall = f; database = w.database } in
      elim failed [
        | some e ↦ (ruled, some e)
        | none ↦ (record { firewall = f; database = d }, refused)
      ]

  -- What the row of the address says.
  unfoldable pub ban_row :
      (p : Policy) (family ip dest_ip : Text) (hits : ℤ) (now expires : Time)
      → Row Time
      → World F D
      → World F D × Option Text
  unfolding ban_new
  ban_row p family ip dest_ip hits now expires (unreadable e) w = (w, some e)
  ban_row p family ip dest_ip hits now expires missing w =
      ban_new p family ip dest_ip hits now expires w
  ban_row p family ip dest_ip hits now expires (present none) w =
      ban_new p family ip dest_ip hits now expires w
  ban_row p family ip dest_ip hits now expires (present (some end)) w =
      let fresh = ban_new p family ip dest_ip hits now expires w in
      let longer : World F D = record {
        firewall = w.firewall;
        database = bans.extend hits expires p.server_id ip w.database;
      } in
      if clock.after end now then (longer, none) else fresh

  -- `banFail2BanIP`, with the address of the server that the rule is for; `quote` is the verb `%q`.
  unfoldable pub ban_fail2ban_ip :
      (quote : Text → Text) (p : Policy) (ip dest_ip : Text) (hits : ℤ) (now : Time)
      → World F D
      → World F D × Option Text
  unfolding ban_row
  ban_fail2ban_ip quote p ip dest_ip hits now w =
      let family = firewall_family_for_value net ip in
      let expires = clock.later now p.ban_time_seconds in
      let banned =
        ban_row p family ip dest_ip hits now expires (bans.find p.server_id ip w.database) w in
      if family === [] then (w, some (codes "invalid fail2ban ip " ++ quote ip)) else banned
