-- ===== src/Firewall/Comments.antt =====
-- `DeleteRuleByComment` of internal/services/serverconfiguration_service.go: the rules of a chain whose
-- line contains a comment are deleted by their numbers, the last one first.
pub mod Sorting
pub mod Numbers
pub mod Deleted
pub mod Took
pub mod Exactly
use go_resolver.Base.{
  Text, ℕ, zero, suc, Bool, true, false, not, ◌||◌, Option, none, some, List, [], ◌∷◌, ◌++◌, codes,
  ltb, ◌==◌, ◌===◌, decimal, if◌then◌else◌,
}
use go_resolver.Base.Int.{ℤ, pos, negsuc}
use go_resolver.Base.Search.{includes}
use go_resolver.Base.Trim.{trim_start}
use go_resolver.Update.Numbers.{is_go_space, atoi}
use go_resolver.Firewall.{Iptables, ipv4, ipv6, list_args}

-- The run of code units up to the next white space.
unfoldable pub take_word : Text → Text
take_word [] = []
take_word (c ∷ s) = let rest = take_word s in if is_go_space c then [] else c ∷ rest

-- `strings.Fields(line)[0]`, if there is a field.
unfoldable pub first_field : Text → Option Text
unfolding take_word
first_field line = elim (trim_start is_go_space line) [
  | [] ↦ none
  | c ∷ s ↦ some (take_word (c ∷ s))
]

abbrev pub positive : ℤ → Option ℕ
positive (pos zero) = none
positive (pos (suc n)) = some (suc n)
positive (negsuc _) = none

-- The number of a line, if it begins with a positive one.
unfoldable pub line_number : Text → Option ℕ
unfolding first_field
line_number line = elim (first_field line) [ none ↦ none | some field ↦ positive (atoi field) ]

-- The numbers of the lines that contain the comment.
unfoldable pub matching_numbers : Text → List Text → List ℕ
unfolding line_number
matching_numbers comment [] = []
matching_numbers comment (line ∷ lines) =
    let rest = matching_numbers comment lines in
    if includes line comment
    then (elim (line_number line) [ none ↦ rest | some n ↦ n ∷ rest ])
    else rest

-- `sort.Sort(sort.Reverse(sort.IntSlice(nums)))`
unfoldable pub insert_down : ℕ → List ℕ → List ℕ
insert_down n [] = n ∷ []
insert_down n (m ∷ ms) = let rest = insert_down n ms in if ltb m n then n ∷ m ∷ ms else m ∷ rest

unfoldable pub sort_down : List ℕ → List ℕ
unfolding insert_down
sort_down [] = []
sort_down (n ∷ ns) = insert_down n (sort_down ns)

-- The last error that there was.
abbrev pub later_error : Option Text → Option Text → Option Text
later_error old none = old
later_error old (some e) = some e

-- What a deletion finds in a family: the state behind it, whether rules were found, and an error.
pub record Deletion (F : Type 0) : Type 0 where
  pub after : F
  pub found : Bool
  pub failed : Option Text

-- What comes of the loop over the families.
unfoldable pub deletion_result :
    {F : Type 0} → (chain table comment : Text) → Deletion F → F × Option Text
deletion_result chain table comment d = if d.found then (d.after, d.failed) else elim d.failed [
  | some e ↦ (d.after, some e)
  | none ↦ (
    d.after,
    some (
        codes "rule with comment '"
        ++ comment
        ++ codes "' not found in "
        ++ table
        ++ codes ":"
        ++ chain),
  )
]

module _ {F : Type 0} (ip : Iptables F) where
  -- `DeleteRule`
  unfoldable pub delete_rule : (chain : Text) → ℕ → (table family : Text) → F → F × Option Text
  delete_rule chain number table family s =
      let selected =
        if (table === []) || (table === codes "filter") then [] else codes "-t" ∷ table ∷ [] in
      let (t, failed) = ip.run family (selected ++ codes "-D" ∷ chain ∷ decimal number ∷ []) s in
      elim failed [ none ↦ (t, none) | some e ↦ (t, some (codes "iptables delete failed: " ++ e)) ]

  -- The loop over the numbers.
  unfoldable pub delete_rules :
      (chain table family : Text) → List ℕ → Option Text → F → F × Option Text
  unfolding delete_rule
  delete_rules chain table family [] last s = (s, last)
  delete_rules chain table family (n ∷ ns) last s =
      let (t, failed) = delete_rule chain n table family s in
      delete_rules chain table family ns (later_error last failed) t

  unfoldable pub delete_found : (chain table family : Text) → List ℕ → F → Deletion F
  unfolding delete_rules
  delete_found chain table family [] s = record { after = s; found = false; failed = none }
  delete_found chain table family (n ∷ ns) s =
      let (t, failed) = delete_rules chain table family (sort_down (n ∷ ns)) none s in
      record { after = t; found = true; failed = failed }

  -- `deleteRuleByCommentForFamily`; the text that a failed listing prints is left out of its message.
  unfoldable pub delete_in_family : (chain table comment family : Text) → F → Deletion F
  unfolding delete_found matching_numbers
  delete_in_family chain table comment family s = elim (ip.print family (list_args table chain) s) [
    | none ↦ record { after = s; found = false; failed = some (codes "iptables list failed: ") }
    | some lines ↦ delete_found chain table family (matching_numbers comment lines) s
  ]

  -- One turn of the loop over the families.
  unfoldable pub delete_turn : (chain table comment family : Text) → Deletion F → Deletion F
  unfolding delete_in_family
  delete_turn chain table comment family d =
      let next = delete_in_family chain table comment family d.after in
      if not (ip.available family) then d else record {
        after = next.after;
        found = next.found || d.found;
        failed = later_error d.failed next.failed;
      }

  -- `DeleteRuleByComment`
  unfoldable pub delete_rule_by_comment : (chain table comment : Text) → F → F × Option Text
  unfolding delete_turn deletion_result
  delete_rule_by_comment chain table comment s =
      let start : Deletion F = record { after = s; found = false; failed = none } in
      deletion_result chain table comment
        (delete_turn chain table comment ipv6 (delete_turn chain table comment ipv4 start))
