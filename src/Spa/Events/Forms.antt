-- ===== src/Spa/Events/Forms.antt =====
-- What the body of a submitted form carries.
use go_resolver.Base.{
  Text, ◌≡◌, ◌≢◌, ◌↔◌, ◌⊎◌, refl, arith, true, Option, none, some, List, [], ◌∷◌, ◌++◌, In, if_ind,
  ===_ne,
}
use go_resolver.Spa.Events.{
  Value, text, file, Form, Body, multipart, urlencoded, with_submitter, has_binary_field,
  text_entries, form_body,
}

-- The body has the text `t` in a field `name`.
abbrev pub CarriesText : Body → Text → Text → Type 0
CarriesText (multipart entries) name t = In (name, text t) entries
CarriesText (urlencoded entries) name t = In (name, t) entries

-- The form has the text in a field, or its submitter is that field.
abbrev pub HasText : Form → Text → Text → Type 0
HasText f name t = In (name, text t) f.entries ⊎ ((name ≢ []) × (f.submitter ≡ some (name, t)))

In-text_entries :
    (name t : Text) (entries : List (Text × Value))
    → In (name, t) (text_entries entries) ↔ In (name, text t) entries
unfolding text_entries
In-text_entries name t [] = ground arith
In-text_entries name t ((n, text v) ∷ rest) = grind (arith, In-text_entries name t rest)
In-text_entries name t ((n, file v) ∷ rest) = grind (arith, In-text_entries name t rest)

In-append_one :
    (x y : Text × Value) (entries : List (Text × Value))
    → In x (entries ++ y ∷ []) ↔ (In x entries ⊎ (x ≡ y))
In-append_one x y [] = ground arith
In-append_one x y (z ∷ rest) = ground (arith, In-append_one x y rest)

In-with_submitter :
    (name t : Text) (submitter : Option (Text × Text)) (entries : List (Text × Value))
    → In (name, text t) (with_submitter submitter entries)
      ↔ (In (name, text t) entries ⊎ ((name ≢ []) × (submitter ≡ some (name, t))))
unfolding with_submitter
In-with_submitter name t none entries = ground arith
In-with_submitter name t (some ([], v)) entries = grind arith
In-with_submitter name t (some (c ∷ n, v)) entries =
    grind (arith, In-append_one (name, text t) (c ∷ n, text v) entries)

has_binary_field-In :
    (name g : Text) (entries : List (Text × Value))
    → In (name, file g) entries
    → g ≢ []
    → has_binary_field entries ≡ true
unfolding has_binary_field
has_binary_field-In name g [] h k = absurd h
has_binary_field-In name g ((n, text v) ∷ rest) h k = grind (arith, has_binary_field-In name g rest)
has_binary_field-In name g ((n, file v) ∷ rest) h k =
    ground (arith, has_binary_field-In name g rest, ===_ne v [])

-- The body carries exactly the texts of the form's fields and of a submitter with a name, and every
-- file that is chosen.
pub form_body_lem :
    (f : Form) (name t : Text)
    → (CarriesText (form_body f) name t ↔ HasText f name t)
      × (In (name, file t) (with_submitter f.submitter f.entries)
          → t ≢ []
          → form_body f ≡ multipart (with_submitter f.submitter f.entries))
unfolding form_body
form_body_lem f name t =
    let entries = with_submitter f.submitter f.entries in
    let carried = In-with_submitter name t f.submitter f.entries in
    let written = In-text_entries name t entries in
    (
      if_ind (λ body. CarriesText body name t ↔ HasText f name t) (has_binary_field entries) _ _
          (λ _. carried) (λ _. (λ h. carried.0 (written.0 h), λ h. written.1 (carried.1 h))),
      λ here named. rw (has_binary_field-In name t entries here named, form_body) refl,
    )
