-- ===== src/Firewall/Families.antt =====
-- The family of a rule, of internal/services/firewall_helpers.go. `lower` is `strings.ToLower`; `address`
-- and `network` are `net.ParseIP` and `net.ParseCIDR`, which say of a text that they can read whether
-- it is of IPv4.
pub mod Agreement
use go_resolver.Base.{
  Text, Bool, true, false, ◌||◌, Option, none, some, List, [], ◌∷◌, codes, ◌===◌, if◌then◌else◌,
}
use go_resolver.Base.Search.{includes}
use go_resolver.Update.Numbers.{trim_space}
use go_resolver.Firewall.{ipv4, ipv6}

pub record Addresses : Type 0 where
  pub lower : Text → Text
  pub address : Text → Option Bool
  pub network : Text → Option Bool

-- `normalizeFirewallFamily`
unfoldable pub normalize_firewall_family : Addresses → Text → Text
normalize_firewall_family net raw =
    let s = net.lower (trim_space raw) in
    if (s === codes "4") || (s === codes "ip4") || (s === codes "ipv4")
    then ipv4
    else if (s === codes "6") || (s === codes "ip6") || (s === codes "ipv6")
    then ipv6
    else []

abbrev pub family_of : Option Bool → Text
family_of none = []
family_of (some true) = ipv4
family_of (some false) = ipv6

-- `firewallFamilyForValue`
unfoldable pub firewall_family_for_value : Addresses → Text → Text
firewall_family_for_value net raw =
    let s = trim_space raw in
    if s === []
    then []
    else if includes s (codes "/")
    then family_of (net.network s)
    else family_of (net.address s)

-- The loop of `inferFirewallFamily` over the addresses; nothing, if two families meet.
unfoldable pub agree : Addresses → Text → List Text → Option Text
unfolding firewall_family_for_value
agree net family [] = some family
agree net family (candidate ∷ candidates) =
    let of_candidate = firewall_family_for_value net candidate in
    let kept = agree net family candidates in
    let taken = agree net of_candidate candidates in
    if of_candidate === []
    then kept
    else if family === []
    then taken
    else if family === of_candidate
    then kept
    else none

-- What is settled on: IPv4, where no family is known.
abbrev pub settled : Option Text → Option Text
settled found = elim found [ none ↦ none | some f ↦ some (if f === [] then ipv4 else f) ]

-- `inferFirewallFamily`, of the family and the addresses `SourceIP`, `DestIP` and `ToIP` of a rule.
unfoldable pub infer_firewall_family :
    Addresses → (family source_ip dest_ip to_ip : Text) → Option Text
unfolding normalize_firewall_family agree
infer_firewall_family net family source_ip dest_ip to_ip =
    settled (agree net (normalize_firewall_family net family) (source_ip ∷ dest_ip ∷ to_ip ∷ []))
