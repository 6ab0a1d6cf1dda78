-- ===== src/Markup/Tooltip.antt =====
-- The tooltip of a ranking chart: the `formatter` of `buildRankingOption` of web/frontend/src/common.tsx.
pub mod Tags
use go_resolver.Base.{
  Text, ℕ, ◌+◌, zero, suc, Option, none, some, List, [], ◌∷◌, ◌++◌, codes, decimal,
}
use go_resolver.Markup.{escape_tooltip_html}
use Prim.Native.String.{String}

-- The tag of a `div` with a style, between double quotes.
abbrev pub open_div : String → Text
open_div style = codes "<div style=" ++ 34 ∷ codes style ++ 34 ∷ codes ">"

-- The pieces of a template literal, or of a `join("")`, in their order.
unfoldable pub joined : List Text → Text
joined [] = []
joined (t ∷ ts) = t ++ joined ts

-- The pieces of the lines of the URLs.
unfoldable pub url_lines : List Text → List Text
url_lines [] = []
url_lines (url ∷ urls) =
    open_div "margin-top:4px;color:#cbd5e1"
    ∷ escape_tooltip_html url
    ∷ codes "</div>"
    ∷ url_lines urls

unfoldable pub url_list : List Text → List Text
unfolding url_lines
url_list [] = open_div "margin-top:4px;color:#94a3b8" ∷ codes "No URL details available</div>" ∷ []
url_list (url ∷ urls) = url_lines (url ∷ urls)

-- The text of the tooltip, which the chart inserts as markup: the name of the bar, its value, and the
-- URLs behind it.
unfoldable pub formatter : Text → ℕ → List Text → Text
unfolding url_list joined
formatter name value urls = joined (
    codes "<div>"
    ∷ open_div "font-weight:600;margin-bottom:4px"
    ∷ escape_tooltip_html name
    ∷ codes "</div>"
    ∷ open_div "margin-bottom:6px"
    ∷ codes "Requests: "
    ∷ decimal value
    ∷ codes "</div>"
    ∷ open_div "color:#94a3b8"
    ∷ codes "Top URLs</div>"
    ∷ (url_list urls ++ codes "</div>" ∷ []))

-- `Array.isArray(series.urls?.[index]) ? series.urls[index] : []`
unfoldable pub urls_at : List (Option (List Text)) → ℕ → List Text
urls_at [] _ = []
urls_at (none ∷ _) zero = []
urls_at (some urls ∷ _) zero = urls
urls_at (_ ∷ rest) (suc n) = urls_at rest n

-- The bars of the chart from the position `n` on: a value with its URLs.
unfoldable pub bars_from : ℕ → List ℕ → List (Option (List Text)) → List (ℕ × List Text)
unfolding urls_at
bars_from n [] urls = []
bars_from n (value ∷ values) urls = (value, urls_at urls n) ∷ bars_from (n + 1) values urls
