-- ===== src/ConfigPage/Ignored.antt =====
-- The forms of the page of a server are left to the browser: the application does not take them.
use go_resolver.Base.{
  Text, ℕ, ◌≡◌, ◌≢◌, refl, Bool, true, ◌&&◌, Option, List, [], ◌∷◌, ◌++◌, codes, Bool-cases, inl,
  inr, truthy, not, decimal, decimal-Digits, Digits, strip_prefix, ◌===◌,
}
use go_resolver.Base.Url.{UrlParams}
use go_resolver.Update.Numbers.Bounds.{decimal-ne-nil}
use go_resolver.Spa.{Spa, Url}
use go_resolver.Spa.Events.{Value, handle_submit, ignored, is_ignored}
use go_resolver.ConfigPage.{
  action_path, after_digits, begins_with_digit, matches_here, is_server_action, spa_ignore_of,
  submit_action_form,
}

after_digits-append : (s rest : Text) → Digits s → after_digits (s ++ rest) ≡ after_digits rest
unfolding after_digits
after_digits-append [] rest h = refl
after_digits-append (c ∷ s) rest (d, h) = rw d (after_digits-append s rest h)

begins_with_digit-Digits :
    (s rest : Text) → s ≢ [] → Digits s → begins_with_digit (s ++ rest) ≡ true
begins_with_digit-Digits [] rest full h = absurd (full refl)
begins_with_digit-Digits (c ∷ s) rest full (d, h) = d

matches_here-action_path : (n : ℕ) → matches_here (action_path (decimal n)) ≡ true
unfolding matches_here strip_prefix ◌===◌
matches_here-action_path n =
    rw
      (
        begins_with_digit-Digits (decimal n) (codes "/server_configuration") (decimal-ne-nil n)
            (decimal-Digits n),
        after_digits-append (decimal n) (codes "/server_configuration") (decimal-Digits n),
      )
      refl

is_server_action-action_path : (n : ℕ) → is_server_action (action_path (decimal n)) ≡ true
unfolding is_server_action
is_server_action-action_path n = rw (matches_here-action_path n) refl

-- An action form of the page of a server, whose number is in the address, is never taken by the
-- application, whatever is asked and answered, and whatever its entries are.
pub handle_submit-action_path :
    (u : UrlParams) (n : ℕ) (url : Url) (message : Text) (confirmed : Bool) (query : Text)
    (entries : List (Text × Value)) (submitter : Option (Text × Text)) (s : Spa)
    → handle_submit u
        (submit_action_form (action_path (decimal n)) url message confirmed query entries submitter)
        s
      ≡ ignored
unfolding handle_submit submit_action_form spa_ignore_of is_ignored ◌===◌
handle_submit-action_path u n url message confirmed query entries submitter s =
    elim (Bool-cases (truthy message && not confirmed)) [
      | inl y ↦ rw (is_server_action-action_path n, y) refl
      | inr z ↦ rw (is_server_action-action_path n, z) refl
    ]
