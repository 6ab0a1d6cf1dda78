-- ===== src/Records/Saving/Unchanged.antt =====
-- A record that is opened for editing and saved at once is set to what it is.
use go_resolver.Base.{Text, ◌≡◌, refl, true, some, [], decimal, decimal-Digits, truthy, ===_ne}
use go_resolver.Update.Numbers.{trim_space}
use go_resolver.Update.Numbers.Bounds.{decimal-ne-nil, trim_space-Digits}
use go_resolver.Records.{
  DnsRecord, RecordDialog, start_edit, record_types, is_listed, selected, RecordPost, edit_action,
  save_record,
}
use go_resolver.Records.Saving.{
  Columns, Statements, normalize_record_name, normalize_record_type, reply, edit_record,
}

-- A record as the service has written it, of a type that the dialog offers.
pub record IsNormal (to_lower to_upper : Text → Text) (r : DnsRecord) : Type 0 where
  pub name : normalize_record_name to_lower r.name ≡ r.name
  pub type : normalize_record_type to_upper r.type ≡ r.type
  pub content : trim_space r.content ≡ r.content
  pub listed : is_listed r.type record_types ≡ true
  pub has_name : truthy r.name ≡ true
  pub has_content : truthy r.content ≡ true

-- The post of the dialog.
abbrev pub post_of : DnsRecord → RecordPost
post_of r = record {
  action = edit_action (decimal r.id);
  name = r.name;
  type = r.type;
  content = r.content;
  ttl = decimal r.ttl;
}

abbrev pub columns : DnsRecord → Columns
columns r = record { name = r.name; type = r.type; content = r.content; ttl = decimal r.ttl }

module _ {S : Type 0} (sql : Statements S) (to_lower to_upper : Text → Text) (r : DnsRecord) where
  saved :
      IsNormal to_lower to_upper r
      → (domain_id : Text) (s : RecordDialog)
      → save_record domain_id (start_edit r s) ≡ some (post_of r)
  unfolding save_record start_edit selected
  saved h domain_id s = rw (h.has_name, h.has_content, h.listed) refl

  written :
      IsNormal to_lower to_upper r
      → (st : S)
      → edit_record sql to_lower to_upper (decimal r.id) (post_of r) st
        ≡ reply (sql.update_row (decimal r.id) (columns r) st)
  unfolding edit_record
  written h st =
      rw
        (
          ===_ne (decimal r.id) [] (decimal-ne-nil r.id),
          h.name,
          h.type,
          h.content,
          trim_space-Digits (decimal r.ttl) (decimal-Digits r.ttl),
        )
        refl

  -- A record with normal columns that is opened for editing and saved at once is posted to its own
  -- address, and the handler behind it sets the columns of this record to what they are.
  pub edit_record-unchanged :
      IsNormal to_lower to_upper r
      → (domain_id : Text) (s : RecordDialog) (st : S)
      → (save_record domain_id (start_edit r s) ≡ some (post_of r))
        × (edit_record sql to_lower to_upper (decimal r.id) (post_of r) st
            ≡ reply (sql.update_row (decimal r.id) (columns r) st))
  edit_record-unchanged h domain_id s st = (saved h domain_id s, written h st)
