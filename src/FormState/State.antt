-- ===== src/FormState/State.antt =====
-- `buildServerConfigFormState` and `updateListItem` of
-- web/frontend/src/pages/server-config-helpers.ts.
pub mod Updates
pub mod Rows
use go_resolver.Base.{
  Text, ℕ, suc, Bool, true, not, Option, none, some, List, [], ◌∷◌, codes, text_or_empty, value_or,
  ◌===◌, map, if◌then◌else◌, ◌==◌,
}
use go_resolver.FormState.Nginx.{SystemNginxSite, NginxRow, map_system_nginx_site}
use go_resolver.FormState.Sites.{
  ServerConfiguration, SiteRow, map_site, ServerErrorPage, ErrorPageRow, map_error_page,
  ServerErrorFile, ErrorFileRow, map_error_file,
}
use go_resolver.FormState.Policies.{
  DdosPolicy, DdosForm, no_ddos_policy, map_ddos, Fail2banPolicy, Fail2banForm, no_fail2ban_policy,
  map_fail2ban,
}

-- `ServerConfigurationPage`, the fields that the form reads; a list that is no array is `none`.
pub record ServerConfigurationPage : Type 0 where
  pub sites : Option (List ServerConfiguration)
  pub server_name : Option Text
  pub ip : Option Text
  pub system_nginx_config : Option Text
  pub system_nginx_sites : Option (List SystemNginxSite)
  pub vpn_file : Option Text
  pub error_pages : Option (List ServerErrorPage)
  pub error_files : Option (List ServerErrorFile)
  pub ddos_policy : Option DdosPolicy
  pub fail2ban_policy : Option Fail2banPolicy

pub record ServerConfigForm : Type 0 where
  pub top_server_name : Text
  pub system_nginx_config : Text
  pub system_nginx_import : Text
  pub system_nginx_sites : List NginxRow
  pub new_system_nginx_sites : List NginxRow
  pub vpn_ip : Text
  pub vpn_file : Text
  pub sites : List SiteRow
  pub new_sites : List SiteRow
  pub error_pages : List ErrorPageRow
  pub new_error_pages : List ErrorPageRow
  pub error_files : List ErrorFileRow
  pub ddos : DdosForm
  pub fail2ban : Fail2banForm

-- `asArray`
abbrev pub as_array {ℓ} : {A : Type ℓ} → Option (List A) → List A
as_array none = []
as_array (some xs) = xs

-- `item?.Server_Name !== "dummy"`
unfoldable pub is_real : ServerConfiguration → Bool
is_real site = elim site.server_name [ none ↦ true | some name ↦ not (name === codes "dummy") ]

unfoldable pub real_sites : List ServerConfiguration → List ServerConfiguration
unfolding is_real
real_sites [] = []
real_sites (s ∷ ss) = let rest = real_sites ss in if is_real s then s ∷ rest else rest

unfoldable pub build_server_config_form_state : ServerConfigurationPage → ServerConfigForm
unfolding real_sites
build_server_config_form_state page = record {
  top_server_name = text_or_empty page.server_name;
  system_nginx_config = text_or_empty page.system_nginx_config;
  system_nginx_import = [];
  system_nginx_sites = map map_system_nginx_site (as_array page.system_nginx_sites);
  new_system_nginx_sites = [];
  vpn_ip = text_or_empty page.ip;
  vpn_file = text_or_empty page.vpn_file;
  sites = map map_site (real_sites (as_array page.sites));
  new_sites = [];
  error_pages = map map_error_page (as_array page.error_pages);
  new_error_pages = [];
  error_files = map map_error_file (as_array page.error_files);
  ddos = map_ddos (value_or page.ddos_policy no_ddos_policy);
  fail2ban = map_fail2ban (value_or page.fail2ban_policy no_fail2ban_policy);
}

-- The loop of `items.map((item, itemIndex) => …)` from an index on; `set` is `{ ...item, [field]: value }`.
update_from {ℓ} : {A : Type ℓ} → ℕ → List A → ℕ → (A → A) → List A
update_from at [] index set = []
update_from at (item ∷ items) index set =
    (if at == index then set item else item) ∷ update_from (suc at) items index set

unfoldable pub update_list_item {ℓ} : {A : Type ℓ} → List A → ℕ → (A → A) → List A
unfolding update_from
update_list_item items index set = update_from 0 items index set
