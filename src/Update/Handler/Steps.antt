-- ===== src/Update/Handler/Steps.antt =====
-- Steps that stop at the first one that fails: how a chain of stages, or a loop over rows, is the sequence
-- of the calls that it makes.
use go_resolver.Base.{
  Text, ◌≡◌, refl, sym, ap, ◌∙◌, fun_ext, Bool, true, false, Option, none, some, List, [], ◌∷◌,
  ◌++◌, map, flat_map, if◌then◌else◌,
}
use go_resolver.Update.Service.{Call, ◌>>◌, skip, each}
use go_resolver.Update.Handler.{Reply}

-- A call, and the response to its error.
abbrev pub Step : Type 0 → Type 0
Step S = (Text → Reply) × Call S

module _ {S : Type 0} where
  -- The calls, one behind the other; the first error decides the response, and nothing follows it.
  unfoldable pub carry_out : List (Step S) → (S → S × Reply) → S → S × Reply
  carry_out [] last s = last s
  carry_out ((reply, call) ∷ steps) last s =
      let (t, failed) = call s in
      elim failed [ none ↦ carry_out steps last t | some e ↦ (t, reply e) ]

  pub carry_out-append :
      (steps rest : List (Step S)) (last : S → S × Reply) (s : S)
      → carry_out (steps ++ rest) last s ≡ carry_out steps (carry_out rest last) s
  unfolding carry_out
  carry_out-append [] rest last s = refl
  carry_out-append ((reply, call) ∷ steps) rest last s =
      ap
        (λ (k : S → S × Reply). elim (call s).1 as (λ _. S × Reply) [
          | none ↦ k (call s).0
          | some e ↦ ((call s).0, reply e)
        ])
        (fun_ext (carry_out-append steps rest last))

  -- A stage that is a sequence of steps.
  abbrev pub Does : (Text → Reply) → Call S → List (Step S) → Type 0
  Does reply call steps =
      (last : S → S × Reply) (s : S)
      → carry_out ((reply, call) ∷ []) last s ≡ carry_out steps last s

  pub skip-Does : (reply : Text → Reply) → Does reply skip []
  unfolding carry_out
  skip-Does reply last s = refl

  pub one-Does : (reply : Text → Reply) (call : Call S) → Does reply call ((reply, call) ∷ [])
  one-Does reply call last s = refl

  pub if-Does :
      (reply : Text → Reply) (test : Bool) (m n : Call S) (a b : List (Step S))
      → Does reply m a
      → Does reply n b
      → Does reply (if test then m else n) (if test then a else b)
  if-Does reply true m n a b h k = h
  if-Does reply false m n a b h k = k

  chained :
      (reply : Text → Reply) (n : Call S) (last : S → S × Reply) (r : S × Option Text)
      → (let out = elim r.1 as (λ _. S × Option Text) [ none ↦ n r.0 | some e ↦ (r.0, some e) ] in
          elim out.1 as (λ _. S × Reply) [ none ↦ last out.0 | some e ↦ (out.0, reply e) ])
        ≡ (elim r.1 as (λ _. S × Reply) [
          | none ↦ carry_out ((reply, n) ∷ []) last r.0
          | some e ↦ (r.0, reply e)
        ])
  unfolding carry_out
  chained reply n last (t, none) = refl
  chained reply n last (t, some e) = refl

  pub then-Does :
      (reply : Text → Reply) (m n : Call S) (a b : List (Step S))
      → Does reply m a
      → Does reply n b
      → Does reply (m >> n) (a ++ b)
  unfolding carry_out
  then-Does reply m n a b h k last s =
      chained reply n last (m s)
      ∙ h (carry_out ((reply, n) ∷ []) last) s
      ∙ ap (λ (l : S → S × Reply). carry_out a l s) (fun_ext (k last))
      ∙ sym (carry_out-append a b last s)

  -- A loop over what is read from the rows that are shown.
  pub each_shown-Does :
      {A B : Type 0} (reply : Text → Reply) (f : B → Call S) (read : A → B)
      (steps : A → List (Step S))
      → ((x : A) → Does reply (f (read x)) (steps x))
      → (xs : List A) → Does reply (each f (map read xs)) (flat_map steps xs)
  unfolding each flat_map
  each_shown-Does reply f read steps h [] = skip-Does reply
  each_shown-Does reply f read steps h (x ∷ xs) =
      then-Does reply (f (read x)) (each f (map read xs)) (steps x) (flat_map steps xs) (h x)
        (each_shown-Does reply f read steps h xs)

-- A stage with the steps that it is.
pub record Stage (S : Type 0) : Type 0 where
  pub reply : Text → Reply
  pub call : Call S
  pub steps : List (Step S)
  pub does : Does reply call steps

module _ {S : Type 0} where
  abbrev pub as_stage :
      (reply : Text → Reply) (call : Call S) (steps : List (Step S))
      → Does reply call steps
      → Stage S
  as_stage reply call steps does = record { reply = reply; call = call; steps = steps; does = does }

  abbrev pub concat : List (List (Step S)) → List (Step S)
  concat = flat_map (λ steps. steps)

  -- A chain of stages is the steps of them all.
  pub stages-Does :
      (stages : List (Stage S)) (last : S → S × Reply) (s : S)
      → carry_out (map (λ (t : Stage S). (t.reply, t.call)) stages) last s
        ≡ carry_out (concat (map (λ (t : Stage S). t.steps) stages)) last s
  unfolding carry_out flat_map
  stages-Does [] last s = refl
  stages-Does (t ∷ stages) last s =
      let rest = concat (map (λ (u : Stage S). u.steps) stages) in
      ap (λ (l : S → S × Reply). carry_out ((t.reply, t.call) ∷ []) l s)
        (fun_ext (stages-Does stages last))
      ∙ t.does (carry_out rest last) s
      ∙ sym (carry_out-append t.steps rest last s)
