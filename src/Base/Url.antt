-- ===== src/Base/Url.antt =====
-- `URLSearchParams` of the browser: its parser and its serialiser are not part of the program.
use mathlib.Core.Path.{◌≡◌}
use mathlib.Core.Option.{Option}
use mathlib.Core.List.{List}
use go_resolver.Base.Strings.{Text}
use go_resolver.Base.Assoc.{lookup}

pub record UrlParams : Type 0 where
  pub parse : Text → List (Text × Text)  -- the entries of `new URLSearchParams(text)`
  pub to_string : List (Text × Text) → Text  -- the serialisation of the entries

-- The serialisation of entries parses to the same entries.
pub record IsLawful (u : UrlParams) : Type 0 where
  pub parse-to_string : (l : List (Text × Text)) → u.parse (u.to_string l) ≡ l

-- `new URLSearchParams(search).get(name)`
unfoldable pub get_param : UrlParams → Text → Text → Option Text
unfolding lookup
get_param u search name = lookup name (u.parse search)
