-- ===== src/FormState/Rules/Defaults.antt =====
-- `applyRuleTypeDefaults` sets the type, and at most the table, the chain and the target.
use go_resolver.Base.{Text, ◌≡◌, ◌≢◌, inl, inr, refl, Bool-cases, codes, ◌===◌, ===_ne}
use go_resolver.FormState.Rules.{RuleForm, aimed, apply_rule_type_defaults}

-- `g` is the form `f` with the type chosen.
pub record IsAimed (type : Text) (f g : RuleForm) : Type 0 where
  pub others : g ≡ record f {
    rule_type = type;
    rule_table = g.rule_table;
    rule_chain = g.rule_chain;
    target = g.target;
  }
  pub dnat : type ≡ codes "dnat" → g ≡ aimed (codes "nat") (codes "PREROUTING") (codes "DNAT") g
  pub masquerade :
      type ≡ codes "masquerade"
      → g ≡ aimed (codes "nat") (codes "POSTROUTING") (codes "MASQUERADE") g
  pub allow : type ≡ codes "allow" → g ≡ aimed (codes "filter") (codes "INPUT") (codes "ACCEPT") g
  pub block : type ≡ codes "block" → g ≡ aimed (codes "filter") (codes "INPUT") (codes "DROP") g
  pub custom : type ≡ codes "custom" → g ≡ record f { rule_type = type }
  pub plain :
      type ≢ codes "dnat"
      → type ≢ codes "masquerade"
      → type ≢ codes "allow"
      → type ≢ codes "block"
      → type ≢ codes "custom"
      → g ≡ aimed (codes "filter") (codes "INPUT") f.target g

others_kept :
    (type : Text) (f : RuleForm)
    → let g = apply_rule_type_defaults type f in
      g ≡ record f {
        rule_type = type;
        rule_table = g.rule_table;
        rule_chain = g.rule_chain;
        target = g.target;
      }
unfolding apply_rule_type_defaults
others_kept type f = elim (Bool-cases (type === codes "dnat")) [
  | inl y0 ↦ rw (y0, apply_rule_type_defaults) refl
  | inr n0 ↦ elim (Bool-cases (type === codes "masquerade")) [
    | inl y1 ↦ rw (n0, y1, apply_rule_type_defaults) refl
    | inr n1 ↦ elim (Bool-cases (type === codes "allow")) [
      | inl y2 ↦ rw (n0, n1, y2, apply_rule_type_defaults) refl
      | inr n2 ↦ elim (Bool-cases (type === codes "block")) [
        | inl y3 ↦ rw (n0, n1, n2, y3, apply_rule_type_defaults) refl
        | inr n3 ↦ elim (Bool-cases (type === codes "custom")) [
          | inl y4 ↦ rw (n0, n1, n2, n3, y4, apply_rule_type_defaults) refl
          | inr n4 ↦ rw (n0, n1, n2, n3, n4, apply_rule_type_defaults) refl
        ]
      ]
    ]
  ]
]

plain_kept :
    (type : Text) (f : RuleForm)
    → type ≢ codes "dnat"
    → type ≢ codes "masquerade"
    → type ≢ codes "allow"
    → type ≢ codes "block"
    → type ≢ codes "custom"
    → let g = apply_rule_type_defaults type f in
      g ≡ aimed (codes "filter") (codes "INPUT") f.target g
unfolding apply_rule_type_defaults
plain_kept type f a b c d e =
    rw
      (
        ===_ne type (codes "dnat") a,
        ===_ne type (codes "masquerade") b,
        ===_ne type (codes "allow") c,
        ===_ne type (codes "block") d,
        ===_ne type (codes "custom") e,
      )
      refl

-- The type is set, and only the table, the chain and the target may differ besides: for "dnat",
-- "masquerade", "allow" and "block" they are that type's, for "custom" the old ones, and for any
-- other type the table is "filter", the chain "INPUT" and the target the old one.
apply_rule_type_defaults-IsAimed :
    (type : Text) (f : RuleForm) → IsAimed type f (apply_rule_type_defaults type f)
unfolding apply_rule_type_defaults ◌===◌
apply_rule_type_defaults-IsAimed type f = record {
  others = others_kept type f;
  dnat = λ e. rw e refl;
  masquerade = λ e. rw e refl;
  allow = λ e. rw e refl;
  block = λ e. rw e refl;
  custom = λ e. rw e refl;
  plain = plain_kept type f;
}
