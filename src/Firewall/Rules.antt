-- ===== src/Firewall/Rules.antt =====
-- A rule as the arguments of the command: `buildFirewallRuleArgs` of internal/services/firewall_helpers.go,
-- and `AddRule` of internal/services/serverconfiguration_service.go. `equal_fold` is `strings.EqualFold`.
use go_resolver.Base.{
  Text, suc, Bool, false, ◌||◌, Option, none, some, List, [], ◌∷◌, ◌++◌, codes, decimal, ◌===◌,
  if◌then◌else◌,
}
use go_resolver.Base.Int.{ℤ, pos, negsuc}
use go_resolver.Firewall.{Iptables, ipv6}
use go_resolver.Firewall.Families.{Addresses, infer_firewall_family}
use go_resolver.Firewall.Comments.{positive}

-- `IPTablesRuleSpec` of internal/models/page.go.
pub record IptablesRuleSpec : Type 0 where
  pub family : Text
  pub table : Text
  pub chain : Text
  pub action : Text
  pub position : ℤ
  pub protocol : Text
  pub in_interface : Text
  pub out_interface : Text
  pub source_ip : Text
  pub dest_ip : Text
  pub source_port : ℤ
  pub dest_port : ℤ
  pub conn_limit : Option ℤ
  pub limit_rate : Text
  pub limit_burst : Text
  pub syn_only : Bool
  pub conn_state : Text
  pub icmp_type : Text
  pub to_ip : Text
  pub to_port : ℤ
  pub target : Text
  pub comment : Text
  pub log_prefix : Text
  pub log_level : Text
  pub reject_with : Text
  pub extra_args : List Text

-- `hasJumpArg`
unfoldable pub has_jump_arg : List Text → Bool
has_jump_arg [] = false
has_jump_arg (arg ∷ args) = (arg === codes "-j") || (arg === codes "--jump") || has_jump_arg args

-- The verb `%d`.
abbrev pub itoa : ℤ → Text
itoa (pos n) = decimal n
itoa (negsuc n) = b'-' ∷ decimal (suc n)

-- An option whose value may be empty, and then is not given.
abbrev pub given : (option value : Text) → List Text
given option value = if value === [] then [] else option ∷ value ∷ []

-- A port, if it is positive.
abbrev pub port : Text → ℤ → List Text
port option value = elim (positive value) [ none ↦ [] | some n ↦ option ∷ decimal n ∷ [] ]

-- The limit of connections, for each address of the family.
abbrev pub limit_args : Text → Option ℤ → List Text
limit_args family none = []
limit_args family (some n) =
    codes "-m"
    ∷ codes "connlimit"
    ∷ codes "--connlimit-above"
    ∷ itoa n
    ∷ codes "--connlimit-mask"
    ∷ (if family === ipv6 then codes "128" else codes "32")
    ∷ []

-- Where the rule goes: the table, the chain, and a position in it.
unfoldable pub place_args : (Text → Text → Bool) → IptablesRuleSpec → List Text
place_args equal_fold spec =
    let insert = equal_fold spec.action (codes "insert") in
    let at : List Text = elim (positive spec.position) [ none ↦ [] | some n ↦ decimal n ∷ [] ] in
    (if (spec.table === []) || (spec.table === codes "filter")
      then []
      else codes "-t" ∷ spec.table ∷ [])
    ++ ((if insert then codes "-I" else codes "-A") ∷ spec.chain ∷ (if insert then at else []))

-- What the rule matches.
unfoldable pub match_args : Text → IptablesRuleSpec → List Text
match_args family spec =
    (if (spec.protocol === []) || (spec.protocol === codes "all")
      then []
      else codes "-p" ∷ spec.protocol ∷ [])
    ++ (given (codes "-i") spec.in_interface
        ++ (given (codes "-o") spec.out_interface
            ++ ((if spec.syn_only then codes "--syn" ∷ [] else [])
                ++ (given (codes "-s") spec.source_ip
                    ++ (given (codes "-d") spec.dest_ip
                        ++ (port (codes "--sport") spec.source_port
                            ++ (port (codes "--dport") spec.dest_port
                                ++ (limit_args family spec.conn_limit
                                    ++ ((if spec.limit_rate === []
                                          then []
                                          else codes "-m"
                                            ∷ codes "limit"
                                            ∷ codes "--limit"
                                            ∷ spec.limit_rate
                                            ∷ given (codes "--limit-burst") spec.limit_burst)
                                        ++ ((if spec.conn_state === []
                                              then []
                                              else codes "-m"
                                                ∷ codes "conntrack"
                                                ∷ codes "--ctstate"
                                                ∷ spec.conn_state
                                                ∷ [])
                                            ++ (given (codes "--icmp-type") spec.icmp_type
                                                ++ spec.extra_args)))))))))))

-- What the rule does, unless the further arguments say it.
unfoldable pub target_args : IptablesRuleSpec → List Text
unfolding has_jump_arg
target_args spec =
    let log = spec.target === codes "LOG" in
    if has_jump_arg spec.extra_args
    then []
    else if spec.target === codes "DNAT"
    then codes "-j"
      ∷ codes "DNAT"
      ∷ codes "--to-destination"
      ∷ (spec.to_ip ++ (b':' ∷ itoa spec.to_port))
      ∷ []
    else if spec.target === []
    then []
    else codes "-j"
      ∷ spec.target
      ∷ ((if log then given (codes "--log-prefix") spec.log_prefix else [])
          ++ ((if log then given (codes "--log-level") spec.log_level else [])
              ++ (if spec.target === codes "REJECT"
                  then given (codes "--reject-with") spec.reject_with
                  else [])))

abbrev pub comment_args : Text → List Text
comment_args comment =
    if comment === [] then [] else codes "-m" ∷ codes "comment" ∷ codes "--comment" ∷ comment ∷ []

-- `buildFirewallRuleArgs`
unfoldable pub build_firewall_rule_args : (Text → Text → Bool) → IptablesRuleSpec → Text → List Text
unfolding place_args match_args target_args
build_firewall_rule_args equal_fold spec family =
    place_args equal_fold spec
    ++ (match_args family spec ++ (target_args spec ++ comment_args spec.comment))

module _ {F : Type 0} (ip : Iptables F) where
  -- `AddRule` behind `inferFirewallFamily`.
  unfoldable pub add_rule_in : (Text → Text → Bool) → IptablesRuleSpec → Text → F → F × Option Text
  unfolding build_firewall_rule_args
  add_rule_in equal_fold spec family s =
      let (t, failed) = ip.run family (build_firewall_rule_args equal_fold spec family) s in
      elim failed [ none ↦ (t, none) | some e ↦ (t, some (codes "iptables error: " ++ e)) ]

  -- `AddRule`
  unfoldable pub add_rule :
      Addresses → (Text → Text → Bool) → IptablesRuleSpec → F → F × Option Text
  unfolding add_rule_in
  add_rule net equal_fold spec s =
      elim (infer_firewall_family net spec.family spec.source_ip spec.dest_ip spec.to_ip) [
        | none ↦ (s, some (codes "mixed firewall families in rule"))
        | some family ↦ add_rule_in equal_fold spec family s
      ]
