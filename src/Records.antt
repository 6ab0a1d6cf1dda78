-- ===== src/Records.antt =====
-- The dialog of `RecordsPageView` of web/frontend/src/pages/core-pages.tsx, the form that it submits, and
-- what internal/handlers/record_handler.go and internal/services/record_service.go make of it.
pub mod Saving
mod Tests
use go_resolver.Base.{
  Text, ℕ, Bool, true, false, not, ◌&&◌, ◌||◌, Option, none, some, List, [], ◌∷◌, ◌++◌, codes,
  decimal, ◌==◌, ◌===◌, truthy, if◌then◌else◌,
}

-- `DnsRecord` of web/frontend/src/types.ts.
pub record DnsRecord : Type 0 where
  pub id : ℕ
  pub domain_id : ℕ
  pub name : Text
  pub type : Text
  pub content : Text
  pub ttl : ℕ

-- The state `record` of the dialog.
pub record RecordForm : Type 0 where
  pub id : Text
  pub name : Text
  pub type : Text
  pub content : Text
  pub ttl : Text

pub data Mode : Type 0 where
  create : Mode
  edit : Mode

pub record RecordDialog : Type 0 where
  pub opened : Bool
  pub mode : Mode
  pub record_form : RecordForm

abbrev pub empty_record : RecordForm
empty_record = record { id = []; name = []; type = codes "A"; content = []; ttl = codes "3600" }

abbrev pub closed_dialog : RecordDialog
closed_dialog = record { opened = false; mode = create; record_form = empty_record }

unfoldable pub start_create : RecordDialog → RecordDialog
start_create s = record { opened = true; mode = create; record_form = empty_record }

unfoldable pub start_edit : DnsRecord → RecordDialog → RecordDialog
start_edit current s = record {
  opened = true;
  mode = edit;
  record_form = record {
    id = decimal current.id;
    name = current.name;
    type = current.type;
    content = current.content;
    ttl = decimal current.ttl;
  };
}

-- The change handlers of the controls.
pub data Control : Type 0 where
  name_input : Control
  type_select : Control
  content_input : Control
  ttl_input : Control

unfoldable pub change : Control → Text → RecordDialog → RecordDialog
change name_input value s = record s { record_form = record s.record_form { name = value } }
change type_select value s = record s { record_form = record s.record_form { type = value } }
change content_input value s = record s { record_form = record s.record_form { content = value } }
change ttl_input value s = record s { record_form = record s.record_form { ttl = value } }

abbrev pub record_types : List Text
record_types =
    codes "A" ∷ codes "AAAA" ∷ codes "CNAME" ∷ codes "MX" ∷ codes "TXT" ∷ codes "TLSA" ∷ []

unfoldable pub is_listed : Text → List Text → Bool
is_listed value [] = false
is_listed value (option ∷ options) = option === value || is_listed value options

-- What a select submits: its value, or the first option if the value is none of them.
unfoldable pub selected : Text → List Text → Text
unfolding is_listed
selected value [] = []
selected value (option ∷ options) = if is_listed value (option ∷ options) then value else option

-- A form that the dialog posts: its address, and the values of its controls.
pub record RecordPost : Type 0 where
  pub action : Text
  pub name : Text
  pub type : Text
  pub content : Text
  pub ttl : Text

abbrev pub edit_action : Text → Text
edit_action id = codes "/records/" ++ id ++ codes "/edit"

abbrev pub create_action : Text → Text
create_action domain_id = codes "/domains/" ++ domain_id ++ codes "/records/new"

abbrev action_of : Mode → Text → RecordForm → Text
action_of create domain_id f = create_action domain_id
action_of edit domain_id f = edit_action f.id

-- The button "Save Record" on the page of a domain: the inputs for the name and the content are
-- required, and the button is disabled without them.
unfoldable pub save_record : Text → RecordDialog → Option RecordPost
unfolding selected
save_record domain_id s =
    if not s.opened || not (truthy s.record_form.name) || not (truthy s.record_form.content)
    then none
    else some record {
      action = action_of s.mode domain_id s.record_form;
      name = s.record_form.name;
      type = selected s.record_form.type record_types;
      content = s.record_form.content;
      ttl = s.record_form.ttl;
    }
