-- ===== src/Update/ErrorPages.antt =====
-- The rows of the error pages and of their files, as the handler reads them:
-- internal/handlers/serverconfiguration_update.go.
pub mod Rows
use go_resolver.Base.{Text, ℕ, Bool, List, [], ◌∷◌, codes, ◌===◌}
use go_resolver.Update.Numbers.{trim_space}
use go_resolver.Update.Submission.{Entries}
use go_resolver.Update.Reading.{form_values, value_at, max_from, max_len, tabulate}

pub record PageColumns : Type 0 where
  pub ids : List Text
  pub site_ids : List Text
  pub file_ids : List Text
  pub enabled : List Text

unfoldable pub page_columns : Entries → PageColumns
page_columns form = record {
  ids = form_values (codes "error_page_id[]") form;
  site_ids = form_values (codes "site_id[]") form;
  file_ids = form_values (codes "error_file_id[]") form;
  enabled = form_values (codes "enabled[]") form;
}

-- `serverErrorPageRow`
pub record PageRow : Type 0 where
  pub id : Text
  pub site_id : Text
  pub error_file_id : Text
  pub enabled : Bool

unfoldable pub page_row_at : PageColumns → ℕ → PageRow
page_row_at d i = record {
  id = value_at d.ids i;
  site_id = value_at d.site_ids i;
  error_file_id = value_at d.file_ids i;
  enabled = value_at d.enabled i === codes "1";
}

unfoldable pub page_row_count : PageColumns → ℕ
unfolding max_from
page_row_count d = max_len (d.ids ∷ d.file_ids ∷ d.site_ids ∷ d.enabled ∷ [])

-- The rows of the rounds of `saveServerErrorPages`.
unfoldable pub page_rows : Entries → List PageRow
page_rows form = let d = page_columns form in tabulate (page_row_count d) 0 (page_row_at d)

pub record FileColumns : Type 0 where
  pub ids : List Text
  pub error_codes : List Text
  pub types : List Text

unfoldable pub file_columns : Entries → FileColumns
file_columns form = record {
  ids = form_values (codes "error_page_file_id[]") form;
  error_codes = form_values (codes "error_code[]") form;
  types = form_values (codes "response_type[]") form;
}

-- `serverErrorFileRow`
pub record FileRow : Type 0 where
  pub id : Text
  pub error_code : Text
  pub response_type : Text

unfoldable pub file_row_at : FileColumns → ℕ → FileRow
file_row_at d i = record {
  id = value_at d.ids i;
  error_code = trim_space (value_at d.error_codes i);
  response_type = trim_space (value_at d.types i);
}

unfoldable pub file_row_count : FileColumns → ℕ
unfolding max_from
file_row_count d = max_len (d.ids ∷ d.error_codes ∷ d.types ∷ [])

-- The rows of the rounds of `saveServerErrorFiles`.
unfoldable pub file_rows : Entries → List FileRow
file_rows form = let d = file_columns form in tabulate (file_row_count d) 0 (file_row_at d)
