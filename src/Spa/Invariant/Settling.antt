-- ===== src/Spa/Invariant/Settling.antt =====
-- A settled request keeps the invariant: only the subscription of the current run acts, and it
-- stores the answer under the key for which the request was made.
use go_resolver.Base.{
  Text, ◌≡◌, inl, inr, refl, false, Bool-cases, none, some, List, [], ◌∷◌, ℕ, All, Bindings, Option,
  Bindings-erase, Bindings-insert, ◌==◌, if◌then◌else◌, if_ind, Option_ind, sym, reverse, lookup,
  erase, All-append,
}
use mathlib.Core.List.{reverse-cons}
use mathlib.Core.Path.{subst₂}
use go_resolver.Base.Url.{UrlParams}
use go_resolver.Route.{Page, response}
use go_resolver.Spa.{Subscription, Spa, Deps}
use go_resolver.Spa.Loading.{Result, answered, failed, call_back, call_backs, forget, settle}
use go_resolver.Spa.Requests.{Asked, Answers}
use go_resolver.Spa.Invariant.{IsCoherent, IsCurrent, IsShown, Named, RunsFor}

All-reverse {ℓ κ} : {A : Type ℓ} (P : A → Type κ) (xs : List A) → All P xs → All P (reverse xs)
All-reverse P [] h = tt
All-reverse P (x ∷ xs) (p, h) =
    rw (reverse-cons x xs) (All-append P (reverse xs) (x ∷ []) (All-reverse P xs h) (p, tt))

module _ (u : UrlParams) where
  -- A page that answers the key of the run may be shown.
  answer-IsShown :
      (requests : List Text) (ran : Option Deps) (key : Text) (page : Page)
      → RunsFor u ran key
      → Answers u requests key page
      → IsShown u requests ran (record { page = some page; error = none; loading = false })
  answer-IsShown requests none key page h a = absurd h
  answer-IsShown requests (some d) key page h a = λ shown _ _ same.
      let page_eq : page ≡ shown = cc in inr (subst₂ (Answers u requests) (sym h) page_eq a)

  failure-IsShown :
      (requests : List Text) (ran : Option Deps) (page : Option Page) (message : Text)
      → IsShown u requests ran (record { page = page; error = some message; loading = false })
  failure-IsShown requests none page message = tt
  failure-IsShown requests (some d) page message = λ shown _ err _. cc

  -- The callbacks still to run were asked for, and the state is coherent.
  record Ready (cs : List Subscription) (s : Spa) : Type 0 where
    asked : All (λ c. Asked u s.requests c.key c.promise) cs
    current : All (IsCurrent u s.ran_with s.run) cs
    coherent : IsCoherent u s

  call_back-Ready :
      (result : Result) (c : Subscription) (cs : List Subscription) (s : Spa)
      → Ready (c ∷ cs) s
      → Ready cs (call_back result c s)
  unfolding call_back
  call_back-Ready (answered active view) c cs s r = elim (Bool-cases c.cancelled) [
    | inl dropped ↦
        rw (dropped, call_back)
          (record { asked = r.asked.1; current = r.current.1; coherent = r.coherent })
    | inr live ↦
        let page : Page = record { active = active; view = view; content = response c.promise } in
        let answers : Answers u s.requests c.key page = record {
          number = c.promise;
          content = refl;
          asked = r.asked.0;
        } in
        let h = r.coherent in
        rw (live, call_back)
          (record {
            asked = r.asked.1;
            current = r.current.1;
            coherent = record {
              here = h.here;
              location = h.location;
              ran = h.ran;
              cache = Bindings-insert _ c.key page s.page_cache h.cache answers;
              pending = h.pending;
              asked = h.asked;
              current = h.current;
              shown =
                  answer-IsShown s.requests s.ran_with c.key page (r.current.0.runs_for live)
                    answers;
            };
          })
  ]
  call_back-Ready (failed message) c cs s r = elim (Bool-cases c.cancelled) [
    | inl dropped ↦
        rw (dropped, call_back)
          (record { asked = r.asked.1; current = r.current.1; coherent = r.coherent })
    | inr live ↦
        let h = r.coherent in
        rw (live, call_back)
          (record {
            asked = r.asked.1;
            current = r.current.1;
            coherent = record {
              here = h.here;
              location = h.location;
              ran = h.ran;
              cache = h.cache;
              pending = h.pending;
              asked = h.asked;
              current = h.current;
              shown = failure-IsShown s.requests s.ran_with s.state.page message;
            };
          })
  ]

  call_backs-IsCoherent :
      (n : ℕ) (result : Result) (cs : List Subscription) (s : Spa)
      → Ready cs s
      → IsCoherent u (call_backs n result cs s)
  unfolding call_backs
  call_backs-IsCoherent n result [] s r = r.coherent
  call_backs-IsCoherent n result (c ∷ cs) s r = call_backs-IsCoherent n result cs _ (
      if_ind (Ready cs) (c.promise == n) (call_back result c s) s
        (λ _. call_back-Ready result c cs s r)
        (λ _. record { asked = r.asked.1; current = r.current.1; coherent = r.coherent }))

  forget-Named :
      (requests : List Text) (n : ℕ) (name : Text) (pending : List (Text × ℕ))
      → Bindings (Named u requests) pending
      → Bindings (Named u requests) (forget n name pending)
  unfolding forget
  forget-Named requests n name pending h =
      let P = Bindings (Named u requests) in
      Option_ind P (lookup name pending) pending
        (λ m. if m == n then erase name pending else pending) (λ _. h)
        (λ m _.
          if_ind P (m == n) (erase name pending) pending (λ _. Bindings-erase _ name pending h)
            (λ _. h))

  pub settle-IsCoherent :
      (n : ℕ) (name : Text) (result : Result) (s : Spa)
      → IsCoherent u s
      → IsCoherent u (settle n name result s)
  unfolding settle
  settle-IsCoherent n name result s h =
      call_backs-IsCoherent n result (reverse s.subscriptions) _ (record {
        asked = All-reverse _ s.subscriptions h.asked;
        current = All-reverse _ s.subscriptions h.current;
        coherent = record {
          here = h.here;
          location = h.location;
          ran = h.ran;
          cache = h.cache;
          pending = forget-Named s.requests n name s.pending h.pending;
          asked = h.asked;
          current = h.current;
          shown = h.shown;
        };
      })
