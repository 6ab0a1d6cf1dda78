-- ===== src/Records/Tests.antt =====
-- Runs of the dialog and the handlers, and the theorem at a concrete record.
use go_resolver.Base.{Text, ◌≡◌, refl, true, none, some, List, [], ◌∷◌, ◌++◌, codes, decimal, ◌===◌}
use go_resolver.Base.Trim.{trim_by}
use go_resolver.Update.Numbers.{trim_space, is_go_space}
use go_resolver.Records.{
  DnsRecord, closed_dialog, start_create, start_edit, name_input, content_input, change, is_listed,
  selected, save_record,
}
use go_resolver.Records.Saving.{
  Statements, http_error, see_other, trim_dot, normalize_record_name, normalize_record_type, reply,
  edit_record, create_record, delete_record,
}
use go_resolver.Records.Saving.Unchanged.{IsNormal, post_of, columns, edit_record-unchanged}

saving : Unit {0}
unfolding start_create start_edit change is_listed selected save_record ◌===◌ trim_space trim_by
    is_go_space trim_dot normalize_record_name normalize_record_type reply edit_record create_record
    delete_record decimal
saving = tt

-- Statements that are written down, with the name of the record.
abbrev logged : Statements (List Text)
logged = record {
  update_row = λ id c log. (log ++ (codes "update " ++ id ++ codes " " ++ c.name) ∷ [], none);
  insert_row = λ id c log. (log ++ (codes "insert " ++ c.name) ∷ [], none);
  delete_row = λ id log. (log, some (codes "no"));
}

-- Texts that are in their case already.
abbrev cased : Text → Text
cased s = s

abbrev host : DnsRecord
host = record {
  id = 5;
  domain_id = 2;
  name = codes "www.example.com";
  type = codes "AAAA";
  content = codes "::1";
  ttl = 300;
}

dialog_tests :
    (save_record (codes "2") closed_dialog ≡ none)
    × (save_record (codes "2") (change content_input (codes "x") (start_create closed_dialog))
        ≡ none)
    × (save_record (codes "2") (
          change content_input
            (codes "x")
            (change name_input (codes "a.") (start_create closed_dialog)))
        ≡ some record {
          action = codes "/domains/2/records/new";
          name = codes "a.";
          type = codes "A";
          content = codes "x";
          ttl = codes "3600";
        })
unfolding saving
dialog_tests = (refl, refl, refl)

-- The dot at the end goes; a type that the dialog does not offer becomes the first that it does.
handler_tests :
    (create_record logged cased cased (codes "2") (record (post_of host) { name = codes " a. " }) []
      ≡ (codes "insert a" ∷ [], see_other))
    × (edit_record logged cased cased [] (post_of host) []
        ≡ ([], http_error 400 (codes "Missing record ID")))
    × (delete_record logged cased cased true (codes "5") [] ≡ ([], http_error 500 (codes "no")))
    × (selected (codes "NS") (codes "A" ∷ codes "MX" ∷ []) ≡ codes "A")
unfolding saving
handler_tests = (refl, refl, refl, refl)

host-IsNormal : IsNormal cased cased host
unfolding saving
host-IsNormal = record {
  name = refl;
  type = refl;
  content = refl;
  listed = refl;
  has_name = refl;
  has_content = refl;
}

edit_record-unchanged_example :
    (save_record (codes "2") (start_edit host closed_dialog) ≡ some (post_of host))
    × (edit_record logged cased cased (decimal 5) (post_of host) []
        ≡ reply (logged.update_row (decimal 5) (columns host) []))
edit_record-unchanged_example =
    edit_record-unchanged logged cased cased host host-IsNormal (codes "2") closed_dialog []
