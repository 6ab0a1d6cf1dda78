-- ===== src/Update/ErrorPages/Rows.antt =====
-- The rows of the error pages and files that the handler reads from the submitted form.
use go_resolver.Base.{
  Bool, Text, ℕ, ◌+◌, ◌≡◌, arith, true, false, some, List, [], ◌∷◌, ◌++◌, map, ◌===◌, get_elem?,
  length, codes,
}
use go_resolver.FormState.Sites.{ErrorPageRow, ErrorFileRow}
use go_resolver.FormState.State.{ServerConfigForm}
use go_resolver.Update.Numbers.{trim_space}
use go_resolver.Update.Submission.{form_entries}
use go_resolver.Update.Reading.{form_values}
use go_resolver.Update.Columns.{columns, value_at-map, tabulate-map, max_len-map}
use go_resolver.Update.ErrorPages.{
  PageColumns, page_columns, PageRow, page_row_at, page_row_count, page_rows, FileColumns,
  file_columns, FileRow, file_row_at, file_row_count, file_rows,
}

-- What the handler makes of one row of the form.
abbrev pub read_page : ErrorPageRow → PageRow
read_page page = record {
  id = page.id;
  site_id = page.site_id;
  error_file_id = page.error_page_id;
  enabled = page.enabled === codes "1";
}

abbrev pub read_file : ErrorFileRow → FileRow
read_file f = record {
  id = f.id;
  error_code = trim_space f.error_code;
  response_type = trim_space f.response_type;
}

abbrev page_columns_of : List ErrorPageRow → PageColumns
page_columns_of rows = record {
  ids = map (λ (r : ErrorPageRow). r.id) rows;
  site_ids = map (λ (r : ErrorPageRow). r.site_id) rows;
  file_ids = map (λ (r : ErrorPageRow). r.error_page_id) rows;
  enabled = map (λ (r : ErrorPageRow). r.enabled) rows;
}

abbrev file_columns_of : List ErrorFileRow → FileColumns
file_columns_of rows = record {
  ids = map (λ (r : ErrorFileRow). r.id) rows;
  error_codes = map (λ (r : ErrorFileRow). r.error_code) rows;
  types = map (λ (r : ErrorFileRow). r.response_type) rows;
}

module _ (tab : Text) (form : ServerConfigForm) where
  page_columns-form_entries :
      (vpn : Bool)
      → page_columns (form_entries false true vpn tab form)
        ≡ page_columns_of (form.error_pages ++ form.new_error_pages)
  unfolding page_columns form_entries ◌===◌ form_values
  page_columns-form_entries true = simp columns
  page_columns-form_entries false = simp columns

  file_columns-form_entries :
      (vpn : Bool)
      → file_columns (form_entries false true vpn tab form) ≡ file_columns_of form.error_files
  unfolding file_columns form_entries ◌===◌ form_values
  file_columns-form_entries true = simp columns
  file_columns-form_entries false = simp columns

page_row_count-page_columns_of :
    (rows : List ErrorPageRow) → page_row_count (page_columns_of rows) ≡ length rows
unfolding page_row_count
page_row_count-page_columns_of rows =
    max_len-map rows (λ r. r.id) ((λ r. r.error_page_id) ∷ (λ r. r.site_id) ∷ (λ r. r.enabled) ∷ [])

page_row_at-page_columns_of :
    (rows : List ErrorPageRow) (j : ℕ) (r : ErrorPageRow)
    → get_elem? rows j ≡ some r
    → page_row_at (page_columns_of rows) (0 + j) ≡ read_page r
unfolding page_row_at
page_row_at-page_columns_of rows j r h =
    let index : 0 + j ≡ j = omega arith in
    let at = λ (g : ErrorPageRow → Text). value_at-map g rows j h in rw index (simp at)

file_row_count-file_columns_of :
    (rows : List ErrorFileRow) → file_row_count (file_columns_of rows) ≡ length rows
unfolding file_row_count
file_row_count-file_columns_of rows =
    max_len-map rows (λ r. r.id) ((λ r. r.error_code) ∷ (λ r. r.response_type) ∷ [])

file_row_at-file_columns_of :
    (rows : List ErrorFileRow) (j : ℕ) (r : ErrorFileRow)
    → get_elem? rows j ≡ some r
    → file_row_at (file_columns_of rows) (0 + j) ≡ read_file r
unfolding file_row_at
file_row_at-file_columns_of rows j r h =
    let index : 0 + j ≡ j = omega arith in
    let at = λ (g : ErrorFileRow → Text). value_at-map g rows j h in rw index (simp at)

module _ (vpn : Bool) (tab : Text) (form : ServerConfigForm) where
  -- From the form of a managed server the handler reads exactly the error pages that are shown.
  pub page_rows-form_entries :
      page_rows (form_entries false true vpn tab form)
      ≡ map read_page (form.error_pages ++ form.new_error_pages)
  unfolding page_rows
  page_rows-form_entries =
      let rows = form.error_pages ++ form.new_error_pages in
      rw (page_columns-form_entries tab form vpn, page_row_count-page_columns_of rows)
        (tabulate-map read_page (page_row_at (page_columns_of rows)) rows 0
          (page_row_at-page_columns_of rows))

  -- And exactly the error files.
  pub file_rows-form_entries :
      file_rows (form_entries false true vpn tab form) ≡ map read_file form.error_files
  unfolding file_rows
  file_rows-form_entries =
      rw (file_columns-form_entries tab form vpn, file_row_count-file_columns_of form.error_files)
        (tabulate-map read_file (file_row_at (file_columns_of form.error_files)) form.error_files 0
          (file_row_at-file_columns_of form.error_files))
