-- ===== src/Markup/Tests.antt =====
-- A run of `escapeTooltipHTML`, and the theorems at a concrete text.
use go_resolver.Base.{Text, ◌≡◌, refl, none, some, List, [], ◌∷◌, codes}
use go_resolver.Markup.{replace_all, escape_tooltip_html}
use go_resolver.Markup.Escaped.{entities, escape_tooltip_html-entities}
use go_resolver.Markup.Tooltip.{formatter, urls_at, bars_from}
use go_resolver.Markup.Tooltip.Tags.{blank, tags, tags-formatter}

escape_test : escape_tooltip_html (codes "a<b&lt;") ≡ codes "a&lt;b&amp;lt;"
unfolding escape_tooltip_html replace_all
escape_test = refl

escape_tooltip_html-entities_example :
    escape_tooltip_html (codes "<a&b>") ≡ entities (codes "<a&b>")
escape_tooltip_html-entities_example = escape_tooltip_html-entities (codes "<a&b>")

bars_test :
    bars_from 0 (7 ∷ 5 ∷ []) (none ∷ some (codes "/a" ∷ []) ∷ [])
    ≡ (7, []) ∷ (5, codes "/a" ∷ []) ∷ []
unfolding bars_from urls_at
bars_test = refl

abbrev urls : List Text
urls = codes "/<script>" ∷ codes "/a" ∷ []

tags-formatter_example :
    tags none (formatter (codes "<b>") 12 urls) ≡ tags none (formatter [] 0 (blank urls))
tags-formatter_example = tags-formatter (codes "<b>") 12 urls
