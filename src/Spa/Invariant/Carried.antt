-- ===== src/Spa/Invariant/Carried.antt =====
-- What stays true of subscriptions, cached pages and pending requests when a run is cancelled or one
-- more request is made.
use go_resolver.Base.{
  Text, ◌≡◌, true, false, List, [], ◌∷◌, ◌++◌, ℕ, All, Bindings, Option, ◌==◌, if_ind, arith,
}
use go_resolver.Base.Url.{UrlParams}
use go_resolver.Route.{Page}
use go_resolver.Spa.{Subscription, Deps}
use go_resolver.Spa.Loading.{cancel}
use go_resolver.Spa.Requests.{Asked, Answers, Asked-append, Answers-append}
use go_resolver.Spa.Invariant.{IsCurrent, Named}

no_run : {m n : ℕ} → (m == n) ≡ false → m ≡ n → ⊥
no_run h e = ground arith

module _ (u : UrlParams) where
  -- After the cleanup every subscription is cancelled.
  pub cancel-IsCurrent :
      (ran now : Option Deps) (run next : ℕ) (cs : List Subscription)
      → All (IsCurrent u ran run) cs
      → All (IsCurrent u now next) (cancel run cs)
  unfolding cancel
  cancel-IsCurrent ran now run next [] h = tt
  cancel-IsCurrent ran now run next (c ∷ cs) (p, h) = (
    if_ind (IsCurrent u now next) (c.run == run) (record c { cancelled = true }) c
        (λ _. record { run_eq = λ e. cc; runs_for = λ e. absurd (cc) })
        (λ older.
          let gone : c.cancelled ≡ false → ⊥ = λ live. no_run older (p.run_eq live) in
          record { run_eq = λ e. absurd (gone e); runs_for = λ e. absurd (gone e) }),
    cancel-IsCurrent ran now run next cs h,
  )

  pub cancel-Asked :
      (requests : List Text) (run : ℕ) (cs : List Subscription)
      → All (λ c. Asked u requests c.key c.promise) cs
      → All (λ c. Asked u requests c.key c.promise) (cancel run cs)
  unfolding cancel
  cancel-Asked requests run [] h = tt
  cancel-Asked requests run (c ∷ cs) (p, h) = (
    if_ind (λ (d : Subscription). Asked u requests d.key d.promise) (c.run == run)
        (record c { cancelled = true }) c (λ _. p) (λ _. p),
    cancel-Asked requests run cs h,
  )

  pub All-Asked-append :
      (requests : List Text) (path : Text) (cs : List Subscription)
      → All (λ c. Asked u requests c.key c.promise) cs
      → All (λ c. Asked u (requests ++ path ∷ []) c.key c.promise) cs
  All-Asked-append requests path [] h = tt
  All-Asked-append requests path (c ∷ cs) (a, h) =
      (Asked-append u requests path c.key c.promise a, All-Asked-append requests path cs h)

  pub Bindings-Answers-append :
      (requests : List Text) (path : Text) (m : List (Text × Page))
      → Bindings (Answers u requests) m
      → Bindings (Answers u (requests ++ path ∷ [])) m
  Bindings-Answers-append requests path [] h = tt
  Bindings-Answers-append requests path ((k, p) ∷ m) (a, h) =
      (Answers-append u requests path k p a, Bindings-Answers-append requests path m h)

  pub Bindings-Named-append :
      (requests : List Text) (path : Text) (m : List (Text × ℕ))
      → Bindings (Named u requests) m
      → Bindings (Named u (requests ++ path ∷ [])) m
  Bindings-Named-append requests path [] h = tt
  Bindings-Named-append requests path ((k, n) ∷ m) (a, h) = (
    record {
      key = a.key;
      token = a.token;
      name_eq = a.name_eq;
      asked = Asked-append u requests path a.key n a.asked;
    },
    Bindings-Named-append requests path m h,
  )
