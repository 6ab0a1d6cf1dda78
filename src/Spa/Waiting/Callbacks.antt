-- ===== src/Spa/Waiting/Callbacks.antt =====
-- What the callbacks of a settled request leave alone, and that a live one ends the loading.
use go_resolver.Base.{
  Text, ◌≡◌, inl, inr, refl, sym, ◌∙◌, subst, true, List, [], ◌∷◌, ◌++◌, ℕ, ◌==◌, In, if_ind,
  if◌then◌else◌, reverse, arith,
}
use mathlib.Core.List.{reverse-cons}
use go_resolver.Spa.{Spa, Subscription}
use go_resolver.Spa.Loading.{Result, answered, failed, call_back, call_backs, settle}

-- What the callbacks of a request leave alone.
pub record Keeps (s t : Spa) : Type 0 where
  pub here : t.here ≡ s.here
  pub location : t.location_state ≡ s.location_state
  pub ran : t.ran_with ≡ s.ran_with
  pub requests : t.requests ≡ s.requests
  pub pending : t.pending ≡ s.pending
  pub outstanding : t.outstanding ≡ s.outstanding
  pub subscriptions : t.subscriptions ≡ s.subscriptions

Keeps-refl : (s : Spa) → Keeps s s
Keeps-refl s = record {
  here = refl;
  location = refl;
  ran = refl;
  requests = refl;
  pending = refl;
  outstanding = refl;
  subscriptions = refl;
}

Keeps-trans : {r s t : Spa} → Keeps r s → Keeps s t → Keeps r t
Keeps-trans h k = record {
  here = k.here ∙ h.here;
  location = k.location ∙ h.location;
  ran = k.ran ∙ h.ran;
  requests = k.requests ∙ h.requests;
  pending = k.pending ∙ h.pending;
  outstanding = k.outstanding ∙ h.outstanding;
  subscriptions = k.subscriptions ∙ h.subscriptions;
}

call_back-Keeps : (result : Result) (c : Subscription) (s : Spa) → Keeps s (call_back result c s)
unfolding call_back
call_back-Keeps (answered active view) c s =
    if_ind (Keeps s) c.cancelled s _ (λ _. Keeps-refl s)
      (λ _. record {
        here = refl;
        location = refl;
        ran = refl;
        requests = refl;
        pending = refl;
        outstanding = refl;
        subscriptions = refl;
      })
call_back-Keeps (failed message) c s =
    if_ind (Keeps s) c.cancelled s _ (λ _. Keeps-refl s)
      (λ _. record {
        here = refl;
        location = refl;
        ran = refl;
        requests = refl;
        pending = refl;
        outstanding = refl;
        subscriptions = refl;
      })

pub call_backs-Keeps :
    (n : ℕ) (result : Result) (cs : List Subscription) (s : Spa)
    → Keeps s (call_backs n result cs s)
unfolding call_backs
call_backs-Keeps n result [] s = Keeps-refl s
call_backs-Keeps n result (c ∷ cs) s =
    Keeps-trans
      (if_ind (Keeps s) (c.promise == n) (call_back result c s) s (λ _. call_back-Keeps result c s)
        (λ _. Keeps-refl s))
      (call_backs-Keeps n result cs (if c.promise == n then call_back result c s else s))

call_back-loading :
    (n : ℕ) (result : Result) (c : Subscription) (s : Spa)
    → (if c.promise == n then call_back result c s else s).state.loading ≡ true
    → (s.state.loading ≡ true) × (c.promise ≡ n → c.cancelled ≡ true)
unfolding call_back
call_back-loading n (answered active view) c s h = ground arith
call_back-loading n (failed message) c s h = ground arith

-- If the loading mark is still there, no live subscription was called back.
call_backs-loading :
    (n : ℕ) (result : Result) (cs : List Subscription) (s : Spa)
    → (call_backs n result cs s).state.loading ≡ true
    → (s.state.loading ≡ true) × ((c : Subscription) → In c cs → c.promise ≡ n → c.cancelled ≡ true)
unfolding call_backs
call_backs-loading n result [] s h = (h, λ c here. absurd here)
call_backs-loading n result (d ∷ cs) s h =
    let (after, later) = call_backs-loading n result cs _ h in
    let (before, first) = call_back-loading n result d s after in
    (
      before,
      λ c here e. elim here [
        | inl same ↦
            subst (λ (x : Subscription). x.promise ≡ n → x.cancelled ≡ true) (sym same) first e
        | inr there ↦ later c there e
      ],
    )

In-append_left : {A : Type 0} (x : A) (xs ys : List A) → In x xs → In x (xs ++ ys)
In-append_left x [] ys h = absurd h
In-append_left x (y ∷ xs) ys (inl e) = inl e
In-append_left x (y ∷ xs) ys (inr h) = inr (In-append_left x xs ys h)

In-concat : {A : Type 0} (x : A) (xs : List A) → In x (xs ++ x ∷ [])
In-concat x [] = inl refl
In-concat x (y ∷ xs) = inr (In-concat x xs)

In-reverse : {A : Type 0} (x : A) (xs : List A) → In x xs → In x (reverse xs)
In-reverse x [] h = absurd h
In-reverse x (y ∷ xs) (inl e) =
    rw (reverse-cons y xs) (subst (λ z. In x (reverse xs ++ z ∷ [])) e (In-concat x (reverse xs)))
In-reverse x (y ∷ xs) (inr h) =
    rw (reverse-cons y xs) (In-append_left x (reverse xs) (y ∷ []) (In-reverse x xs h))

-- A live subscription is called back when its request settles, and ends the loading.
pub settle-loading :
    (n : ℕ) (name : Text) (result : Result) (s : Spa)
    → (settle n name result s).state.loading ≡ true
    → (s.state.loading ≡ true)
      × ((c : Subscription) → In c s.subscriptions → c.promise ≡ n → c.cancelled ≡ true)
unfolding settle
settle-loading n name result s h =
    let (before, gone) = call_backs-loading n result (reverse s.subscriptions) _ h in
    (before, λ c here e. gone c (In-reverse c s.subscriptions here) e)
