-- ===== src/Markup.antt =====
-- `escapeTooltipHTML` of web/frontend/src/common.tsx.
pub mod Escaped
pub mod Tooltip
mod Tests
use go_resolver.Base.{Text, ℕ, [], ◌∷◌, ◌++◌, codes, ◌==◌, if◌then◌else◌}

-- `s.replaceAll(c, by)`, for one character.
unfoldable pub replace_all : ℕ → Text → Text → Text
replace_all c by [] = []
replace_all c by (d ∷ s) = (if d == c then by else d ∷ []) ++ replace_all c by s

-- The character 34 is the double quote, and 39 the single one.
unfoldable pub escape_tooltip_html : Text → Text
unfolding replace_all
escape_tooltip_html s =
    let ampersands = replace_all b'&' (codes "&amp;") s in
    let less = replace_all b'<' (codes "&lt;") ampersands in
    let greater = replace_all b'>' (codes "&gt;") less in
    replace_all 39 (codes "&#39;") (replace_all 34 (codes "&quot;") greater)
