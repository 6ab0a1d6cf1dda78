-- ===== src/Update/Service.antt =====
-- What the handler calls: the methods of `Service`, which read and write the database and the hosts,
-- as parameters over a state of any type, and the actions that are made of them.
use go_resolver.Base.{Text, Option, none, some, List, [], ◌∷◌}
use go_resolver.Base.Int.{ℤ}
use go_resolver.Update.Reading.{ConfigurationRow}
use go_resolver.Update.ErrorPages.{PageRow, FileRow}
use go_resolver.Update.NginxSites.{NginxSite}
use go_resolver.Update.Policies.{DdosSettings, Fail2banSettings}

-- A call with its effect, and the message of its error, if any.
abbrev pub Call : Type 0 → Type 0
Call S = S → S × Option Text

-- The fields of `models.ServerConfiguration` that an update sets besides those of the row.
pub record SiteUpdate : Type 0 where
  pub id : ℤ
  pub name : Text
  pub ip : Text
  pub vpn_file : Text

-- What `ImportSystemNginxConfig` makes of a text: sites and the rest, or an error.
pub data Imported : Type 0 where
  sites_and_rest : List NginxSite → Text → Imported
  rejected : Text → Imported

pub record Service (S : Type 0) : Type 0 where
  pub insert_site : Text → ConfigurationRow → Call S
  pub update_site : Text → SiteUpdate → ConfigurationRow → Call S
  pub insert_error_page : Text → PageRow → Call S
  pub save_error_page : Text → PageRow → Call S
  pub update_error_file : FileRow → Call S
  pub save_ddos_policy : Text → DdosSettings → Call S
  pub apply_ddos_iptables : Text → DdosSettings → Call S
  pub deploy_system_nginx : Call S
  pub site_names : Text → S → List Text  -- the names of `GetServerConfiguration`
  pub deploy_nginx : Text → Call S
  pub import_nginx : Text → Imported
  pub save_system_nginx : Text → List NginxSite → Call S
  pub save_fail2ban_policy : Text → Fail2banSettings → Call S
  pub enforce_fail2ban : S → S
  pub assign_vpn_ip : Text → Text → Call S

module _ {S : Type 0} where
  -- `if err := m(); err != nil { return err }`, and then the rest.
  infixl 5 ◌>>◌
  abbrev pub ◌>>◌ : Call S → Call S → Call S
  ◌>>◌ m k s = let (t, failed) = m s in elim failed [ none ↦ k t | some e ↦ (t, some e) ]

  abbrev pub skip : Call S
  skip s = (s, none)

  -- A loop over rows that stops at the first error.
  unfoldable pub each : {A : Type 0} → (A → Call S) → List A → Call S
  each f [] = skip
  each f (x ∷ xs) = f x >> each f xs
