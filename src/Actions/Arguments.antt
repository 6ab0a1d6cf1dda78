-- ===== src/Actions/Arguments.antt =====
-- The splitting of the further arguments of a rule: words that need no quoting are found again.
use go_resolver.Base.{
  Text, ℕ, ◌≡◌, ◌≢◌, refl, sym, subst, ap, ◌∙◌, arith, false, none, some, List, [], ◌∷◌, ◌++◌,
  append_assoc, append-nil, ◌==◌, ◌===◌, ===_ne, reverse, All,
}
use mathlib.Core.List.{reverse-reverse, reverse-append}
use go_resolver.Base.Trim.{trim_by, trim_start}
use go_resolver.Update.Numbers.{trim_space, is_go_space}
use go_resolver.Actions.RuleForms.{ArgState, arg_step, parse_args_from, no_args, parse_args}

-- A character that stands for itself.
abbrev pub IsPlain : ℕ → Type 0
IsPlain c =
    (is_go_space c ≡ false) × ((c == b'\\') ≡ false) × ((c == 39) ≡ false) × ((c == 34) ≡ false)

abbrev pub IsWord : Text → Type 0
IsWord w = (w ≢ []) × All IsPlain w

-- The words, with a space between each two.
unfoldable pub spaced : List Text → Text
spaced [] = []
spaced (w ∷ []) = w
spaced (w ∷ v ∷ ws) = w ++ (b' ' ∷ spaced (v ∷ ws))

abbrev reading : Text → ArgState
reading current = record {
  current = current;
  in_single = false;
  in_double = false;
  escaping = false;
}

arg_step-IsPlain :
    (current : Text) (c : ℕ)
    → IsPlain c
    → arg_step (reading current) c ≡ (reading (current ++ c ∷ []), none)
unfolding arg_step is_go_space
arg_step-IsPlain current c (space, slash, single, double) = ground arith

parse_args_from-IsPlain :
    (current w rest : Text)
    → All IsPlain w
    → parse_args_from (reading current) (w ++ rest) ≡ parse_args_from (reading (current ++ w)) rest
unfolding parse_args_from
parse_args_from-IsPlain current [] rest h =
    ap (λ t. parse_args_from (reading t) rest) (sym (append-nil current))
parse_args_from-IsPlain current (c ∷ w) rest (p, h) =
    ap
      (λ r. elim r.1 [
        | none ↦ parse_args_from r.0 (w ++ rest)
        | some arg ↦ arg ∷ parse_args_from r.0 (w ++ rest)
      ])
      (arg_step-IsPlain current c p)
    ∙ parse_args_from-IsPlain (current ++ c ∷ []) w rest h
    ∙ ap (λ t. parse_args_from (reading t) rest) (append_assoc current (c ∷ []) w)

parse_args_from-end : (w : Text) → w ≢ [] → parse_args_from (reading w) [] ≡ w ∷ []
unfolding parse_args_from
parse_args_from-end w full = rw (===_ne w [] full) refl

arg_step-space : (w : Text) → w ≢ [] → arg_step (reading w) b' ' ≡ (reading [], some w)
unfolding arg_step
arg_step-space w full = rw (===_ne w [] full, arg_step) refl

parse_args_from-space :
    (w rest : Text)
    → w ≢ []
    → parse_args_from (reading w) (b' ' ∷ rest) ≡ w ∷ parse_args_from (reading []) rest
unfolding parse_args_from
parse_args_from-space w rest full =
    ap
      (λ r. elim r.1 [
        | none ↦ parse_args_from r.0 rest
        | some arg ↦ arg ∷ parse_args_from r.0 rest
      ])
      (arg_step-space w full)

parse_args_from-spaced :
    (words : List Text) → All IsWord words → parse_args_from (reading []) (spaced words) ≡ words
unfolding spaced parse_args_from ◌===◌
parse_args_from-spaced [] h = refl
parse_args_from-spaced (w ∷ []) ((full, plain), h) =
    ap (parse_args_from (reading [])) (sym (append-nil w))
    ∙ parse_args_from-IsPlain [] w [] plain
    ∙ parse_args_from-end w full
parse_args_from-spaced (w ∷ v ∷ words) ((full, plain), h) =
    parse_args_from-IsPlain [] w (b' ' ∷ spaced (v ∷ words)) plain
    ∙ parse_args_from-space w (spaced (v ∷ words)) full
    ∙ ap (λ l. w ∷ l) (parse_args_from-spaced (v ∷ words) h)

-- A text whose two ends are no white space stays.
abbrev Held : Text → Type 0
Held s = (trim_start is_go_space s ≡ s) × (trim_start is_go_space (reverse s) ≡ reverse s)

trim_space-Held : (s : Text) → Held s → trim_space s ≡ s
unfolding trim_space trim_by
trim_space-Held s (front, back) = rw (front, back) (reverse-reverse s)

trim_start_solid :
    (c : ℕ) (s : Text) → is_go_space c ≡ false → trim_start is_go_space (c ∷ s) ≡ c ∷ s
unfolding trim_start
trim_start_solid c s h = rw h refl

-- The last character of a text, which is no white space.
abbrev Closed : Text → Type 0
Closed s = (u : Text) × (d : ℕ) × (s ≡ u ++ d ∷ []) × (is_go_space d ≡ false)

Closed-append : (t s : Text) → Closed s → Closed (t ++ s)
Closed-append t s (u, d, e, h) =
    (t ++ u, d, ap (λ x. t ++ x) e ∙ sym (append_assoc t u (d ∷ [])), h)

word-Closed : (w : Text) → w ≢ [] → All IsPlain w → Closed w
word-Closed [] full h = absurd (full refl)
word-Closed (c ∷ []) full (p, h) = ([], c, refl, p.0)
word-Closed (c ∷ d ∷ w) full (p, h) =
    Closed-append (c ∷ []) (d ∷ w) (word-Closed (d ∷ w) (λ e. cc) h)

spaced-Closed :
    (w : Text) (words : List Text) → All IsWord (w ∷ words) → Closed (spaced (w ∷ words))
unfolding spaced
spaced-Closed w [] ((full, plain), h) = word-Closed w full plain
spaced-Closed w (v ∷ words) ((full, plain), h) =
    Closed-append w (b' ' ∷ spaced (v ∷ words))
      (Closed-append (b' ' ∷ []) (spaced (v ∷ words)) (spaced-Closed v words h))

trim_start-spaced :
    (w : Text) (words : List Text)
    → All IsWord (w ∷ words)
    → trim_start is_go_space (spaced (w ∷ words)) ≡ spaced (w ∷ words)
unfolding spaced
trim_start-spaced [] words ((full, plain), h) = absurd (full refl)
trim_start-spaced (c ∷ w) [] ((full, plain), h) = trim_start_solid c w plain.0.0
trim_start-spaced (c ∷ w) (v ∷ words) ((full, plain), h) =
    trim_start_solid c (w ++ (b' ' ∷ spaced (v ∷ words))) plain.0.0

trim_start-Closed : (s : Text) → Closed s → trim_start is_go_space (reverse s) ≡ reverse s
trim_start-Closed s (u, d, e, h) =
    subst (λ t. trim_start is_go_space t ≡ t) (sym (ap reverse e ∙ reverse-append u (d ∷ [])))
      (trim_start_solid d (reverse u) h)

parse_args_nil : parse_args (spaced []) ≡ []
unfolding parse_args spaced parse_args_from trim_space trim_by trim_start ◌===◌
parse_args_nil = refl

-- Words without white space, quotes and backslashes, set with single spaces, are the arguments again.
pub parse_args-spaced : (words : List Text) → All IsWord words → parse_args (spaced words) ≡ words
unfolding parse_args
parse_args-spaced [] h = parse_args_nil
parse_args-spaced (w ∷ words) h =
    ap (parse_args_from no_args) (
      trim_space-Held (spaced (w ∷ words)) (
        trim_start-spaced w words h,
        trim_start-Closed (spaced (w ∷ words)) (spaced-Closed w words h),
      ))
    ∙ parse_args_from-spaced (w ∷ words) h
