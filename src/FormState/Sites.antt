-- ===== src/FormState/Sites.antt =====
-- The sites, error pages and error files of a server: the records of web/frontend/src/types.ts, and
-- `mapSite`, `mapErrorPage`, `mapErrorFile`, `emptySiteRow` and
-- `emptyErrorPageRow` of web/frontend/src/pages/server-config-helpers.ts. A missing or null field is
-- `none`; the numbers are natural.
pub mod RoundTrip
use go_resolver.Base.{
  Text, ℕ, zero, suc, Bool, Option, none, some, [], codes, decimal, or_text, value_or, flag,
  text_or_empty,
}

-- `ServerConfiguration`, the fields that the form reads.
pub record ServerConfiguration : Type 0 where
  pub id : ℕ
  pub server_name : Option Text
  pub site_enabled : Option ℕ
  pub server_port : Option ℕ
  pub ssl_enabled : Option ℕ
  pub ssl_redirect : Option ℕ
  pub hsts : Option ℕ
  pub proxy_pass_port : Option ℕ
  pub proxy_intercept_errors : Option ℕ
  pub proxy_connect_timeout : Option ℕ
  pub proxy_read_timeout : Option ℕ
  pub proxy_send_timeout : Option ℕ
  pub websockets : Option ℕ

pub record SiteRow : Type 0 where
  pub id : Text
  pub server_name : Text
  pub site_enabled : Text
  pub server_port : Text
  pub ssl_enabled : Text
  pub ssl_redirect : Text
  pub hsts : Text
  pub proxy_pass_port : Text
  pub proxy_intercept_errors : Text
  pub proxy_connect_timeout : Text
  pub proxy_read_timeout : Text
  pub proxy_send_timeout : Text
  pub websockets : Text

-- `String(n || "")`: zero is falsy.
unfoldable pub number_or_empty : Option ℕ → Text
number_or_empty none = []
number_or_empty (some zero) = []
number_or_empty (some (suc n)) = decimal (suc n)

-- `n || fallback`
unfoldable pub number_or : Option ℕ → ℕ → ℕ
number_or none fallback = fallback
number_or (some zero) fallback = fallback
number_or (some (suc n)) fallback = suc n

-- `String(n ?? "")`
unfoldable pub number_text : Option ℕ → Text
number_text none = []
number_text (some n) = decimal n

unfoldable pub map_site : ServerConfiguration → SiteRow
map_site site = record {
  id = decimal site.id;
  server_name = text_or_empty site.server_name;
  site_enabled = decimal (value_or site.site_enabled 1);
  server_port = number_or_empty site.server_port;
  ssl_enabled = decimal (value_or site.ssl_enabled 0);
  ssl_redirect = decimal (value_or site.ssl_redirect 0);
  hsts = decimal (value_or site.hsts 0);
  proxy_pass_port = number_or_empty site.proxy_pass_port;
  proxy_intercept_errors = decimal (value_or site.proxy_intercept_errors 0);
  proxy_connect_timeout = decimal (number_or site.proxy_connect_timeout 5);
  proxy_read_timeout = decimal (number_or site.proxy_read_timeout 300);
  proxy_send_timeout = decimal (number_or site.proxy_send_timeout 300);
  websockets = decimal (value_or site.websockets 0);
}

unfoldable pub empty_site_row : SiteRow
empty_site_row = record {
  id = [];
  server_name = [];
  site_enabled = codes "1";
  server_port = codes "80";
  ssl_enabled = codes "0";
  ssl_redirect = codes "0";
  hsts = codes "0";
  proxy_pass_port = codes "8080";
  proxy_intercept_errors = codes "0";
  proxy_connect_timeout = codes "5";
  proxy_read_timeout = codes "300";
  proxy_send_timeout = codes "300";
  websockets = codes "0";
}

-- `ServerErrorPage`
pub record ServerErrorPage : Type 0 where
  pub id : Text
  pub site_id : Option Text
  pub error_page_id : Option Text
  pub enabled : Bool

pub record ErrorPageRow : Type 0 where
  pub id : Text
  pub site_id : Text
  pub error_page_id : Text
  pub enabled : Text

unfoldable pub map_error_page : ServerErrorPage → ErrorPageRow
map_error_page page = record {
  id = page.id;
  site_id = or_text (text_or_empty page.site_id) (codes "*");
  error_page_id = text_or_empty page.error_page_id;
  enabled = flag page.enabled;
}

unfoldable pub empty_error_page_row : ErrorPageRow
empty_error_page_row = record {
  id = [];
  site_id = codes "*";
  error_page_id = [];
  enabled = codes "1";
}

-- `ServerErrorFile`, and its row.
pub record ServerErrorFile : Type 0 where
  pub id : Text
  pub error_code : Option Text
  pub response_type : Option Text
  pub filename : Option Text
  pub path : Option Text

pub record ErrorFileRow : Type 0 where
  pub id : Text
  pub error_code : Text
  pub response_type : Text
  pub filename : Text
  pub path : Text

unfoldable pub map_error_file : ServerErrorFile → ErrorFileRow
map_error_file f = record {
  id = f.id;
  error_code = text_or_empty f.error_code;
  response_type = or_text (text_or_empty f.response_type) (codes "html");
  filename = text_or_empty f.filename;
  path = text_or_empty f.path;
}
