-- ===== src/ConfigPage/Editor.antt =====
-- The dialogs for the files of the error pages: opening a file waits for its response and then for its text,
-- and another file can be opened in between. A text that cannot be read, and a response that does not
-- come, leave the state as it is.
pub mod Asked
use go_resolver.Base.{
  ◌≡◌, Text, ℕ, Bool, true, false, Option, none, some, List, [], ◌∷◌, ◌++◌, codes, truthy,
  if◌then◌else◌,
}
use go_resolver.Spa.{Spa, Response, handle_mutation_response}
use go_resolver.Spa.Events.{Value, text, file}

pub record Editor : Type 0 where
  pub file_id : Text
  pub content : Text
  pub opened : Bool

abbrev pub closed_editor : Editor
closed_editor = record { file_id = []; content = []; opened = false }

-- The request that `openErrorFileEditor` makes: nothing for a file without an ID.
unfoldable pub open_request : Option Text → Option Text
open_request none = none
open_request (some id) = if truthy id then some (codes "/error-files/" ++ id) else none

-- The response has come.
abbrev pub take_response : Text → Editor → Editor
take_response id e = record e { file_id = id }

-- Its text has been read.
abbrev pub take_text : Text → Editor → Editor
take_text content e = record e { content = content; opened = true }

abbrev pub change_content : Text → Editor → Editor
change_content content e = record e { content = content }

abbrev pub close_editor : Editor → Editor
close_editor e = record e { opened = false }

-- A request that changes a file, by its address and what it carries.
pub record Put : Type 0 where
  pub url : Text
  pub body : Text

-- `saveErrorFile`
unfoldable pub save_request : Editor → Put
save_request e = record { url = codes "/error-files/" ++ e.file_id; body = e.content }

-- Behind the response of `saveErrorFile`: the dialog is closed unless the mutation is refused.
unfoldable pub saved : Option Text → Editor → Editor
saved none e = close_editor e
saved (some message) e = e

pub record Upload : Type 0 where
  pub code : Text
  pub type : Text
  pub chosen : Option Text
  pub shown : Bool

-- `uploadErrorFile`: the address and the entries of the form, if a file is chosen.
unfoldable pub upload_request : (server_id : Text) → Upload → Option (Text × List (Text × Value))
upload_request server_id up = elim up.chosen [
  | none ↦ none
  | some name ↦ some (
    codes "/servers/" ++ (server_id ++ codes "/error-pages/upload"),
    (codes "error_code", text up.code)
        ∷ (codes "response_type", text up.type)
        ∷ (codes "file", file name)
        ∷ [],
  )
]

-- Behind the response of `uploadErrorFile`: the dialog is closed whatever comes of the mutation.
abbrev pub uploaded : Upload → Upload
uploaded up = record up { shown = false }

-- A list without one of its elements.
pub data Taken (A : Type 0) : A → List A → List A → Type 0 where
  here : {x : A} {rest : List A} → Taken A x (x ∷ rest) rest
  later :
      {x other : A} {waiting rest : List A}
      → Taken A x waiting rest
      → Taken A x (other ∷ waiting) (other ∷ rest)

-- What has happened to an editor: whether anything was typed, the files that were ever asked for, the
-- requests without a response, the responses that have come, each with its file and its text, and those
-- whose text has not been read.
pub data Editing
    : (typed : Bool) (asked waiting : List Text) (answers reading : List (Text × Text))
      → Editor
      → Type 0 where
  start : Editing false [] [] [] [] closed_editor
  ask :
      {typed : Bool} {asked waiting : List Text} {answers reading : List (Text × Text)} {e : Editor}
      (id url : Text)
      → open_request (some id) ≡ some url
      → Editing typed asked waiting answers reading e
      → Editing typed (id ∷ asked) (id ∷ waiting) answers reading e
  respond :
      {typed : Bool} {asked waiting rest : List Text} {answers reading : List (Text × Text)}
      {e : Editor} {id : Text} (content : Text)
      → Taken Text id waiting rest
      → Editing typed asked waiting answers reading e
      → Editing typed asked rest
          ((id, content) ∷ answers)
          ((id, content) ∷ reading)
          (take_response id e)
  read :
      {typed : Bool} {asked waiting : List Text} {answers reading rest : List (Text × Text)}
      {e : Editor} {id content : Text}
      → Taken (Text × Text) (id, content) reading rest
      → Editing typed asked waiting answers reading e
      → Editing typed asked waiting answers rest (take_text content e)
  write :
      {typed : Bool} {asked waiting : List Text} {answers reading : List (Text × Text)} {e : Editor}
      (content : Text)
      → Editing typed asked waiting answers reading e
      → Editing true asked waiting answers reading (change_content content e)
  save :
      {typed : Bool} {asked waiting : List Text} {answers reading : List (Text × Text)} {e : Editor}
      (refusal : Option Text)
      → Editing typed asked waiting answers reading e
      → Editing typed asked waiting answers reading (saved refusal e)
  close :
      {typed : Bool} {asked waiting : List Text} {answers reading : List (Text × Text)} {e : Editor}
      → Editing typed asked waiting answers reading e
      → Editing typed asked waiting answers reading (close_editor e)
