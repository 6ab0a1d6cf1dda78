-- ===== src/Firewall/Example.antt =====
-- A firewall that keeps, for each family and chain, the texts of its rules; the text of a rule is the last
-- of the arguments that it was inserted with.
use go_resolver.Base.{
  Text, ℕ, zero, suc, ◌-◌, Bool, ◌||◌, ◌≡◌, ◌≢◌, ◌⊎◌, inl, inr, refl, ap, ◌∙◌, arith, true, ◌&&◌,
  Option, none, some, List, [], ◌∷◌, ◌++◌, codes, length, ◌===◌, ===_iff, ===_ne, if◌then◌else◌,
  decimal, value, strip_prefix,
}
use go_resolver.Base.Decimal.RoundTrip.{value-decimal}
use go_resolver.Base.Search.{includes, is_prefix}
use go_resolver.Base.Trim.{trim_start}
use go_resolver.Update.Numbers.{is_go_space, atoi}
use go_resolver.Firewall.{Iptables, IsIptables, pad, Listed, list_args, insert_args, delete_args}
use go_resolver.Firewall.Comments.{line_number}

abbrev pub Chains : Type 0
Chains = Text → Text → List Text

-- The list without its `n`-th element, counted from 1.
unfoldable pub remove : ℕ → List Text → List Text
remove zero xs = xs
remove (suc n) [] = []
remove (suc zero) (x ∷ xs) = xs
remove (suc (suc n)) (x ∷ xs) = x ∷ remove (suc n) xs

unfoldable pub put : Text → Text → List Text → Chains → Chains
put family chain rules s f c = if (f === family) && (c === chain) then rules else s f c

unfoldable pub final : List Text → Text
final [] = []
final (x ∷ []) = x
final (x ∷ y ∷ xs) = final (y ∷ xs)

-- The numbers take at least five columns, and a space.
unfoldable numbered : ℕ → List Text → List Text
unfolding pad
numbered n [] = []
numbered n (rule ∷ rules) =
    (decimal n ++ (b' ' ∷ pad (5 - length (decimal n)) rule)) ∷ numbered (suc n) rules

abbrev title : Text → List Text
title chain =
    (codes "Chain " ++ (chain ++ codes " (policy ACCEPT)")) ∷ codes "num  target     prot" ∷ []

-- The chains that are there.
abbrev built_in : Text → Bool
built_in chain =
    (chain === codes "INPUT") || (chain === codes "FORWARD") || (chain === codes "OUTPUT")

unfoldable pub print_chain : Text → List Text → Chains → Option (List Text)
unfolding numbered
print_chain family (_ ∷ _ ∷ _ ∷ chain ∷ _) s =
    if built_in chain
    then some (title chain ++ (numbered 1 (s family chain) ++ ([] ∷ [])))
    else none
print_chain family _ s = none

unfoldable pub run_rule : Text → List Text → Chains → Chains × Option Text
unfolding remove put final
run_rule family (command ∷ chain ∷ number ∷ options) s =
    if command === codes "-D"
    then (put family chain (remove (value number) (s family chain)) s, none)
    else (put family chain (final options ∷ s family chain) s, none)
run_rule family _ s = (s, some (codes "Bad argument"))

abbrev pub example_tables : Iptables Chains
example_tables = record { available = λ family. true; print = print_chain; run = run_rule }

abbrev pub example_rules : Chains → Text → Text → List Text
example_rules s family chain = s family chain

remove-length :
    (before : List Text) (rule : Text) (after : List Text)
    → remove (suc (length before)) (before ++ rule ∷ after) ≡ before ++ after
unfolding remove
remove-length [] rule after = refl
remove-length (x ∷ before) rule after = ap (λ l. x ∷ l) (remove-length before rule after)

put_same :
    (family chain : Text) (rules : List Text) (s : Chains)
    → put family chain rules s family chain ≡ rules
unfolding put
put_same family chain rules s =
    rw ((===_iff family family).1 refl, (===_iff chain chain).1 refl) refl

put_other :
    (family chain other_family other : Text) (rules : List Text) (s : Chains)
    → (other_family ≢ family) ⊎ (other ≢ chain)
    → put family chain rules s other_family other ≡ s other_family other
unfolding put
put_other family chain f c rules s (inl apart) = rw (===_ne f family apart) refl
put_other family chain f c rules s (inr apart) = ground (arith, ===_ne c chain apart)

final-append :
    (xs : List Text) (y z : Text) (ys : List Text) → final (xs ++ y ∷ z ∷ ys) ≡ final (z ∷ ys)
unfolding final
final-append [] y z ys = refl
final-append (x ∷ []) y z ys = refl
final-append (x ∷ x' ∷ xs) y z ys = final-append (x' ∷ xs) y z ys

is_prefix_self : (s : Text) → is_prefix s s ≡ true
unfolding is_prefix strip_prefix
is_prefix_self [] = refl
is_prefix_self (c ∷ s) = ground (arith, is_prefix_self s)

pub includes_self : (s : Text) → includes s s ≡ true
unfolding includes
includes_self [] = is_prefix_self []
includes_self (c ∷ s) = rw (is_prefix_self (c ∷ s)) refl

deleted :
    (family chain : Text) (before : List Text) (rule : Text) (after : List Text) (s : Chains)
    → s family chain ≡ before ++ rule ∷ after
    → run_rule family (delete_args chain (suc (length before))) s
      ≡ (put family chain (before ++ after) s, none)
unfolding run_rule ◌===◌
deleted family chain before rule after s h =
    ap (λ l. (put family chain l s, none))
      (ap (λ n. remove n (s family chain)) (value-decimal (suc (length before)))
        ∙ ap (remove (suc (length before))) h
        ∙ remove-length before rule after)

deleted_other :
    (family chain : Text) (n : ℕ) (f c : Text) (s : Chains)
    → (f ≢ family) ⊎ (c ≢ chain)
    → (run_rule family (delete_args chain n) s).0 f c ≡ s f c
unfolding run_rule ◌===◌
deleted_other family chain n f c s apart =
    put_other family chain f c (remove (value (decimal n)) (s family chain)) s apart

inserted :
    (family chain comment : Text) (options : List Text) (s : Chains)
    → run_rule family (insert_args chain options comment) s
      ≡ (put family chain (comment ∷ s family chain) s, none)
unfolding run_rule ◌===◌
inserted family chain comment options s =
    ap (λ t. (put family chain (t ∷ s family chain) s, none))
      (final-append options (codes "-m") (codes "comment") (codes "--comment" ∷ comment ∷ []))

numbered-Listed : (n : ℕ) (rules : List Text) → Listed n rules (numbered n rules)
unfolding numbered Listed
numbered-Listed n [] = refl
numbered-Listed n (rule ∷ rules) =
    (5 - length (decimal n), numbered (suc n) rules, refl, numbered-Listed (suc n) rules)

printed :
    (family chain : Text) (s : Chains)
    → built_in chain ≡ true
    → print_chain family (list_args (codes "filter") chain) s
      ≡ some (title chain ++ (numbered 1 (s family chain) ++ ([] ∷ [])))
unfolding print_chain
printed family chain s h = rw h refl

pub example_law : IsIptables example_tables example_rules (λ line. line_number line ≡ none)
unfolding line_number trim_start is_go_space atoi ◌===◌
example_law = record {
  stands = λ family chain. built_in chain;
  input = λ family. refl;
  forward = λ family. refl;
  heading = λ family chain s. title chain;
  unnumbered = λ family chain s. (refl, (refl, tt));
  prints = λ family chain s there stands. (
    numbered 1 (s family chain),
    printed family chain s stands,
    numbered-Listed 1 (s family chain),
  );
  deletes = λ family chain before rule after s there h. (
    ap (λ r. r.0 family chain) (deleted family chain before rule after s h)
        ∙ put_same family chain (before ++ after) s,
    ap (λ r. r.1) (deleted family chain before rule after s h),
  );
  keeps = λ family chain f c n s apart. deleted_other family chain n f c s apart;
  inserts = λ family chain comment options s plain line h. (
    refl,
    comment ∷ [],
    (includes_self comment, tt),
    ap (λ r. r.0 family chain) (inserted family chain comment options s)
        ∙ put_same family chain (comment ∷ s family chain) s,
    λ f c apart.
        ap (λ r. r.0 f c) (inserted family chain comment options s)
        ∙ put_other family chain f c (comment ∷ s family chain) s apart,
  );
}
