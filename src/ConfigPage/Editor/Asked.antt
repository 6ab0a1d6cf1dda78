-- ===== src/ConfigPage/Editor/Asked.antt =====
-- What the dialog of the editor can save: always to a file that was asked for, but, when two files are opened
-- one after the other, the text of the one to the other.
use go_resolver.Base.{
  Text, Bool, ◌≡◌, ◌≢◌, ◌⊎◌, inl, inr, refl, sym, subst, arith, true, false, Option, none, some,
  List, [], ◌∷◌, ◌++◌, codes, In, All,
}
use go_resolver.ConfigPage.Editor.{
  Editor, closed_editor, open_request, take_response, take_text, saved, save_request, Editing,
  start, ask, Taken, here, later, respond, read, write, save, close,
}

-- The pending requests are for files that were asked for, and no response has come, or the file of the
-- editor is one of those.
IsAsked : List Text → List Text → List (Text × Text) → Editor → Type 0
IsAsked asked waiting reading e =
    All (λ id. In id asked) waiting × (((reading ≡ []) × (e.opened ≡ false)) ⊎ In e.file_id asked)

All-Taken :
    (asked : List Text) {id : Text} {waiting rest : List Text}
    → Taken Text id waiting rest
    → All (λ x. In x asked) waiting
    → In id asked × All (λ x. In x asked) rest
All-Taken asked here (h, k) = (h, k)
All-Taken asked (later t) (h, k) = let (own, rest) = All-Taken asked t k in (own, (h, rest))

All-In_more :
    (id : Text) (asked waiting : List Text)
    → All (λ x. In x asked) waiting
    → All (λ x. In x (id ∷ asked)) waiting
All-In_more id asked [] h = tt
All-In_more id asked (x ∷ waiting) (h, k) = (inr h, All-In_more id asked waiting k)

Taken-nil :
    {x : Text × Text} {waiting rest : List (Text × Text)}
    → Taken (Text × Text) x waiting rest
    → waiting ≢ []
Taken-nil here e = cc
Taken-nil (later t) e = cc

saved-file_id : (refusal : Option Text) (e : Editor) → (saved refusal e).file_id ≡ e.file_id
unfolding saved
saved-file_id none e = refl
saved-file_id (some message) e = refl

saved-opened :
    (refusal : Option Text) (e : Editor) → e.opened ≡ false → (saved refusal e).opened ≡ false
unfolding saved
saved-opened none e h = refl
saved-opened (some message) e h = h

Editing-IsAsked :
    {typed : Bool} {asked waiting : List Text} {answers reading : List (Text × Text)} {e : Editor}
    → Editing typed asked waiting answers reading e
    → IsAsked asked waiting reading e
unfolding IsAsked
Editing-IsAsked start = (tt, inl (refl, refl))
Editing-IsAsked (ask {asked = asked} {waiting = waiting} id url h r) =
    let (all, one) = Editing-IsAsked r in
    ((inl refl, All-In_more id asked waiting all), elim one [ inl k ↦ inl k | inr k ↦ inr (inr k) ])
Editing-IsAsked (respond {asked = asked} content t r) =
    let (own, rest) = All-Taken asked t (Editing-IsAsked r).0 in (rest, inr own)
Editing-IsAsked (read t r) =
    let (all, one) = Editing-IsAsked r in
    (all, elim one [ inl (none_read, shut) ↦ absurd (Taken-nil t none_read) | inr k ↦ inr k ])
Editing-IsAsked (write content r) = Editing-IsAsked r
Editing-IsAsked (save {asked = asked} {e = e} refusal r) =
    let (all, one) = Editing-IsAsked r in
    (
      all,
      elim one [
        | inl (none_read, shut) ↦ inl (none_read, saved-opened refusal e shut)
        | inr k ↦ inr (subst (λ x. In x asked) (sym (saved-file_id refusal e)) k)
      ],
    )
Editing-IsAsked (close r) =
    let (all, one) = Editing-IsAsked r in
    (all, elim one [ inl (none_read, shut) ↦ inl (none_read, refl) | inr k ↦ inr k ])

-- Whatever is opened, answered, typed, saved and closed, an editor that is open saves to the address of a
-- file that was asked for.
pub save_request-asked :
    (typed : Bool) (asked waiting : List Text) (answers reading : List (Text × Text)) (e : Editor)
    → Editing typed asked waiting answers reading e
    → e.opened ≡ true
    → (id : Text) × In id asked × ((save_request e).url ≡ codes "/error-files/" ++ id)
unfolding IsAsked save_request
save_request-asked typed asked waiting answers reading e r open_now = elim (Editing-IsAsked r).1 [
  | inl (none_read, shut) ↦ absurd (ground arith)
  | inr k ↦ (e.file_id, k, refl)
]

-- Whatever two files are opened one after the other, and whatever their responses carry, the editor can
-- come, without any typing, to a state in which it is open and saves the text of the response of the
-- first one to the address of the second one.
pub save_request-crossed :
    (first second first_text second_text : Text)
    → open_request (some first) ≡ some (codes "/error-files/" ++ first)
    → open_request (some second) ≡ some (codes "/error-files/" ++ second)
    → (e : Editor) × Editing false
        (second ∷ first ∷ [])
        []
        ((second, second_text) ∷ (first, first_text) ∷ [])
        []
        e
      × (e.opened ≡ true)
      × ((save_request e).url ≡ codes "/error-files/" ++ second)
      × ((save_request e).body ≡ first_text)
unfolding save_request
save_request-crossed first second first_text second_text h k = (
  take_text first_text
      (take_text second_text (take_response second (take_response first closed_editor))),
  read here (
      read here (
        respond second_text here
          (respond first_text (later here) (ask second _ k (ask first _ h start))))),
  refl,
  refl,
  refl,
)
