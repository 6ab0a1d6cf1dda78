-- ===== src/Records/Saving.antt =====
-- The handlers `Edit`, `Create` and `Delete` with the methods of `RecordService` that they call. The
-- statements of the database are parameters over a state of any type, as are Go's `strings.ToLower` and
-- `strings.ToUpper`.
pub mod Unchanged
use go_resolver.Base.{
  Text, ℕ, Bool, true, false, not, Option, none, some, List, [], ◌∷◌, codes, ◌==◌, ◌===◌, truthy,
  if◌then◌else◌,
}
use go_resolver.Update.Numbers.{trim_space}
use go_resolver.Update.Service.{Call}
use go_resolver.Records.{RecordPost}

-- What a statement sets.
pub record Columns : Type 0 where
  pub name : Text
  pub type : Text
  pub content : Text
  pub ttl : Text

-- UPDATE, INSERT and DELETE, each with the id of its record or domain.
pub record Statements (S : Type 0) : Type 0 where
  pub update_row : Text → Columns → Call S
  pub insert_row : Text → Columns → Call S
  pub delete_row : Text → Call S

-- An error with its status, or a redirect to the page that the request came from.
pub data RecordReply : Type 0 where
  http_error : ℕ → Text → RecordReply
  see_other : RecordReply

-- `strings.TrimSuffix(s, ".")`
unfoldable pub trim_dot : Text → Text
trim_dot [] = []
trim_dot (c ∷ []) = if c == b'.' then [] else c ∷ []
trim_dot (c ∷ d ∷ s) = c ∷ trim_dot (d ∷ s)

unfoldable pub normalize_record_name : (Text → Text) → Text → Text
unfolding trim_dot
normalize_record_name to_lower name = trim_dot (to_lower (trim_space name))

unfoldable pub normalize_record_type : (Text → Text) → Text → Text
normalize_record_type to_upper type = to_upper (trim_space type)

-- The response to a call that has ended.
unfoldable pub reply : {S : Type 0} → S × Option Text → S × RecordReply
reply (s, none) = (s, see_other)
reply (s, some e) = (s, http_error 500 e)

module _ {S : Type 0} (sql : Statements S) (to_lower to_upper : Text → Text) where
  abbrev pub columns_of : RecordPost → Columns
  columns_of post = record {
    name = normalize_record_name to_lower post.name;
    type = normalize_record_type to_upper post.type;
    content = trim_space post.content;
    ttl = trim_space post.ttl;
  }

  -- `Edit`, with the id of the route.
  unfoldable pub edit_record : Text → RecordPost → S → S × RecordReply
  edit_record id post s =
      if id === []
      then (s, http_error 400 (codes "Missing record ID"))
      else reply (sql.update_row id (columns_of post) s)

  -- `Create`, with the id of the domain.
  unfoldable pub create_record : Text → RecordPost → S → S × RecordReply
  create_record domain_id post s =
      if domain_id === []
      then (s, http_error 400 (codes "Missing domain ID"))
      else reply (sql.insert_row domain_id (columns_of post) s)

  -- `Delete`; the request has the method POST or not.
  unfoldable pub delete_record : Bool → Text → S → S × RecordReply
  delete_record is_post id s =
      if not is_post
      then (s, http_error 405 (codes "Method not allowed"))
      else if id === []
      then (s, http_error 400 (codes "No id supplied"))
      else reply (sql.delete_row id s)
