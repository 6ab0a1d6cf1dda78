-- ===== src/Markup/Tooltip/Tags.antt =====
-- What a tooltip has in angle brackets does not come from the data that it shows.
use go_resolver.Base.{
  Text, ℕ, Option, none, some, ◌≡◌, ◌≢◌, refl, sym, ◌∙◌, ap, arith, List, [], ◌∷◌, ◌++◌, codes,
  decimal, decimal-Digits, ◌==◌, if◌then◌else◌, Digits,
}
use Prim.Native.String.{String}
use go_resolver.Markup.{escape_tooltip_html}
use go_resolver.Markup.Escaped.{IsPlain, escape_tooltip_html-IsPlain}
use go_resolver.Markup.Tooltip.{open_div, joined, url_lines, url_list, formatter}

-- The contents of the angle brackets of a text, where `some acc` is what a bracket that is open has so
-- far.
unfoldable pub tags : Option Text → Text → List Text
tags none [] = []
tags none (c ∷ s) =
    let rest = tags none s in let tag = tags (some []) s in if c == b'<' then tag else rest
tags (some acc) [] = acc ∷ []
tags (some acc) (c ∷ s) =
    let rest = tags none s in
    let more = tags (some (acc ++ c ∷ [])) s in if c == b'>' then acc ∷ rest else more

no_tag : (c : ℕ) (a b : List Text) → c ≢ b'<' → (if c == b'<' then a else b) ≡ b
no_tag c a b h = ground arith

tags-IsPlain : (t s : Text) → IsPlain t → tags none (t ++ s) ≡ tags none s
unfolding tags
tags-IsPlain [] s h = refl
tags-IsPlain (c ∷ t) s ((h, _, _, _), k) = no_tag c _ _ h ∙ tags-IsPlain t s k

digit-IsPlain : (s : Text) → Digits s → IsPlain s
digit-IsPlain [] h = tt
digit-IsPlain (c ∷ s) (h, k) = (ground arith, digit-IsPlain s k)

-- Texts in place of which nothing stands.
abbrev pub blank : List Text → List Text
blank [] = []
blank (_ ∷ urls) = [] ∷ blank urls

tags-escaped : (t s : Text) → tags none (escape_tooltip_html t ++ s) ≡ tags none s
tags-escaped t s = tags-IsPlain (escape_tooltip_html t) s (escape_tooltip_html-IsPlain t)

tags-decimal : (n : ℕ) (s : Text) → tags none (decimal n ++ s) ≡ tags none s
tags-decimal n s = tags-IsPlain (decimal n) s (digit-IsPlain (decimal n) (decimal-Digits n))

-- The tag of a `div` with a style.
abbrev tag : String → Text
tag style = codes "div style=" ++ 34 ∷ codes style ++ 34 ∷ []

tags-url_lines :
    (urls pieces : List Text)
    → tags none (joined (url_lines urls ++ pieces))
      ≡ tags none (joined (url_lines (blank urls) ++ pieces))
unfolding tags url_lines joined
tags-url_lines [] pieces = refl
tags-url_lines (url ∷ urls) pieces =
    ap (λ l. tag "margin-top:4px;color:#cbd5e1" ∷ l)
      (tags-escaped url (joined (codes "</div>" ∷ url_lines urls ++ pieces))
        ∙ ap (λ l. codes "/div" ∷ l) (tags-url_lines urls pieces)
        ∙ sym (tags-escaped [] (joined (codes "</div>" ∷ url_lines (blank urls) ++ pieces))))

tags-url_list :
    (urls pieces : List Text)
    → tags none (joined (url_list urls ++ pieces))
      ≡ tags none (joined (url_list (blank urls) ++ pieces))
unfolding url_list
tags-url_list [] pieces = refl
tags-url_list (url ∷ urls) pieces = tags-url_lines (url ∷ urls) pieces

-- The pieces behind the value, and behind the name.
abbrev behind_value : List Text → List Text
behind_value urls =
    codes "</div>"
    ∷ open_div "color:#94a3b8"
    ∷ codes "Top URLs</div>"
    ∷ (url_list urls ++ codes "</div>" ∷ [])

abbrev behind_name : ℕ → List Text → List Text
behind_name value urls =
    codes "</div>"
    ∷ open_div "margin-bottom:6px"
    ∷ codes "Requests: "
    ∷ decimal value
    ∷ behind_value urls

-- What stands in angle brackets in a tooltip is the same whatever the name, the value and the URLs
-- are: it depends only on how many URLs there are.
pub tags-formatter :
    (name : Text) (value : ℕ) (urls : List Text)
    → tags none (formatter name value urls) ≡ tags none (formatter [] 0 (blank urls))
unfolding formatter tags joined
tags-formatter name value urls =
    ap (λ l. codes "div" ∷ tag "font-weight:600;margin-bottom:4px" ∷ l)
      (tags-escaped name (joined (behind_name value urls))
        ∙ ap (λ l. codes "/div" ∷ tag "margin-bottom:6px" ∷ l)
            (tags-decimal value (joined (behind_value urls))
              ∙ ap (λ l. codes "/div" ∷ tag "color:#94a3b8" ∷ codes "/div" ∷ l)
                  (tags-url_list urls (codes "</div>" ∷ []))
              ∙ sym (tags-decimal 0 (joined (behind_value (blank urls)))))
        ∙ sym (tags-escaped [] (joined (behind_name 0 (blank urls)))))
