-- ===== src/Firewall.antt =====
-- The rules of the firewall: `iptables` and `ip6tables`, which the server calls, as an interface over a
-- state of any type, with the constants of internal/services/firewall_helpers.go.
pub mod Families
pub mod Rules
pub mod Comments
pub mod Example
mod Tests
use go_resolver.Base.{
  Text, ℕ, zero, suc, ◌≡◌, ◌≢◌, ◌⊎◌, Bool, true, false, ◌&&◌, ◌||◌, Option, none, some, List, [],
  ◌∷◌, ◌++◌, codes, decimal, All, length, ◌===◌, Lacks,
}
use go_resolver.Base.Search.{includes}

abbrev pub ipv4 : Text
ipv4 = codes "ipv4"

abbrev pub ipv6 : Text
ipv6 = codes "ipv6"

-- The programs, by the family: whether `os.Stat` finds one, what a command prints, split at
-- the line breaks, and what a command changes, with the message of its error.
pub record Iptables (F : Type 0) : Type 0 where
  pub available : Text → Bool
  pub print : Text → List Text → F → Option (List Text)
  pub run : Text → List Text → F → F × Option Text

-- `-t table -L chain -n --line-numbers`
abbrev pub list_args : (table chain : Text) → List Text
list_args table chain =
    codes "-t" ∷ table ∷ codes "-L" ∷ chain ∷ codes "-n" ∷ codes "--line-numbers" ∷ []

-- `-D chain number`, in the table `filter`.
abbrev pub delete_args : Text → ℕ → List Text
delete_args chain number = codes "-D" ∷ chain ∷ decimal number ∷ []

-- `-I chain 1`, with what the rule is, and its comment.
abbrev pub insert_args : Text → List Text → Text → List Text
insert_args chain options comment =
    codes "-I"
    ∷ chain
    ∷ codes "1"
    ∷ (options ++ (codes "-m" ∷ codes "comment" ∷ codes "--comment" ∷ comment ∷ []))

-- Some spaces in front of a text.
unfoldable pub pad : ℕ → Text → Text
pad zero s = s
pad (suc n) s = b' ' ∷ pad n s

-- The lines of rules, from the number `n` on: each begins with the number of its rule, and a space or
-- more, as many as the listing likes for that line, stand between the number and the rule.
unfoldable pub Listed : ℕ → List Text → List Text → Type 0
unfolding pad
Listed n [] lines = lines ≡ []
Listed n (rule ∷ rules) lines =
    (spaces : ℕ) × (rest : List Text) × (lines ≡ (decimal n ++ (b' ' ∷ pad spaces rule)) ∷ rest)
    × Listed (suc n) rules rest

-- Options for a protocol, a source, a destination and a target, each with its value.
unfoldable pub plain : List Text → Bool
plain [] = true
plain (option ∷ []) = false
plain (option ∷ value ∷ rest) =
    ((option === codes "-p")
      || (option === codes "-s")
      || (option === codes "-d")
      || (option === codes "-j"))
    && plain rest

-- What the documentation of `iptables` says of listing, deleting and inserting in the table `filter`,
-- where `rules` are the texts of the rules of a family's chain. Some chains always stand, as the
-- built-in `INPUT` and `FORWARD` do. The listing of a chain that stands has its own heading, whose lines
-- do not begin with a number (`IsHeading`), above the rules, each with its number from 1 on. Deleting a
-- number that is there takes away that rule alone. Where inserting at the head with a comment of one
-- line succeeds, the program is there, and what is added, a rule for each address that the options
-- stand for, contains the comment.
pub record IsIptables {F : Type 0} (ip : Iptables F) (rules : F → Text → Text → List Text)
    (IsHeading : Text → Type 0) : Type 0 where
  pub stands : (family chain : Text) → Bool
  pub input : (family : Text) → stands family (codes "INPUT") ≡ true
  pub forward : (family : Text) → stands family (codes "FORWARD") ≡ true
  pub heading : (family chain : Text) → F → List Text
  pub unnumbered : (family chain : Text) (s : F) → All IsHeading (heading family chain s)
  pub prints :
      (family chain : Text) (s : F)
      → ip.available family ≡ true
      → stands family chain ≡ true
      → (lines : List Text) × (ip.print family (list_args (codes "filter") chain) s
          ≡ some (heading family chain s ++ (lines ++ ([] ∷ []))))
        × Listed 1 (rules s family chain) lines
  pub deletes :
      (family chain : Text) (before : List Text) (rule : Text) (after : List Text) (s : F)
      → ip.available family ≡ true
      → rules s family chain ≡ before ++ rule ∷ after
      → (rules (ip.run family (delete_args chain (suc (length before))) s).0 family chain
          ≡ before ++ after)
        × ((ip.run family (delete_args chain (suc (length before))) s).1 ≡ none)
  pub keeps :
      (family chain other_family other : Text) (n : ℕ) (s : F)
      → (other_family ≢ family) ⊎ (other ≢ chain)
      → rules (ip.run family (delete_args chain n) s).0 other_family other
        ≡ rules s other_family other
  pub inserts :
      (family chain comment : Text) (options : List Text) (s : F)
      → plain options ≡ true
      → Lacks 10 comment
      → (ip.run family (insert_args chain options comment) s).1 ≡ none
      → (ip.available family ≡ true)
        × (added : List Text) × All (λ rule. includes rule comment ≡ true) added
        × (rules (ip.run family (insert_args chain options comment) s).0 family chain
            ≡ added ++ rules s family chain)
        × ((other_family other : Text)
            → (other_family ≢ family) ⊎ (other ≢ chain)
            → rules (ip.run family (insert_args chain options comment) s).0 other_family other
              ≡ rules s other_family other)
