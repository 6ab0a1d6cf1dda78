-- ===== src/Markup/Escaped.antt =====
-- The five replacements are one pass over the text, and leave no character that opens markup.
use go_resolver.Base.{
  Text, ℕ, ◌≡◌, ◌≢◌, refl, sym, ◌∙◌, ap₂, arith, [], ◌∷◌, ◌++◌, codes, ◌==◌, if◌then◌else◌, All,
  All-append, append_assoc,
}
use go_resolver.Markup.{replace_all, escape_tooltip_html}

-- The text that stands for one character.
abbrev pub entity : ℕ → Text
entity c =
    if c == b'&'
    then codes "&amp;"
    else if c == b'<'
    then codes "&lt;"
    else if c == b'>'
    then codes "&gt;"
    else if c == 34
    then codes "&quot;"
    else if c == 39
    then codes "&#39;"
    else c ∷ []

-- Each character by what stands for it, in one pass.
abbrev pub entities : Text → Text
entities [] = []
entities (c ∷ s) = entity c ++ entities s

-- A text without the characters that open a tag or end an attribute.
abbrev pub IsPlain : Text → Type 0
IsPlain = All (λ c. (c ≢ b'<') × (c ≢ b'>') × (c ≢ 34) × (c ≢ 39))

replace_all-append :
    (c : ℕ) (by s t : Text) → replace_all c by (s ++ t) ≡ replace_all c by s ++ replace_all c by t
unfolding replace_all
replace_all-append c by [] t = refl
replace_all-append c by (d ∷ s) t =
    rw (replace_all-append c by s t) (sym (append_assoc (if d == c then by else d ∷ []) _ _))

escape-append :
    (s t : Text) → escape_tooltip_html (s ++ t) ≡ escape_tooltip_html s ++ escape_tooltip_html t
unfolding escape_tooltip_html
escape-append s t = simp replace_all-append

escape-one : (c : ℕ) → escape_tooltip_html (c ∷ []) ≡ entity c
unfolding escape_tooltip_html replace_all
escape-one c = ground arith

-- Escaping replaces each character once, by its entity: no replacement touches the text of another.
pub escape_tooltip_html-entities : (s : Text) → escape_tooltip_html s ≡ entities s
unfolding escape_tooltip_html replace_all
escape_tooltip_html-entities [] = refl
escape_tooltip_html-entities (c ∷ s) =
    escape-append (c ∷ []) s ∙ ap₂ (λ a b. a ++ b) (escape-one c) (escape_tooltip_html-entities s)

entity-IsPlain : (c : ℕ) → IsPlain (entity c)
entity-IsPlain c = ground arith

entities-IsPlain : (s : Text) → IsPlain (entities s)
entities-IsPlain [] = tt
entities-IsPlain (c ∷ s) =
    All-append _ (entity c) (entities s) (entity-IsPlain c) (entities-IsPlain s)

-- An escaped text has no angle bracket and no quote.
pub escape_tooltip_html-IsPlain : (s : Text) → IsPlain (escape_tooltip_html s)
escape_tooltip_html-IsPlain s = rw (escape_tooltip_html-entities s) (entities-IsPlain s)
