-- ===== src/Route/Normal.antt =====
-- `normalizePath`: what it takes off a path, and what it never does.
use go_resolver.Base.{
  Text, ◌≡◌, ◌≢◌, ◌⊎◌, inl, inr, refl, ap, arith, true, false, [], ◌∷◌, ◌++◌, codes, ===_iff,
  ===_refl, ℕ, Lacks, All-append_left, subst,
}
use go_resolver.Route.{ends_with_slash, drop_last, normalize_path}

ends_with_slash-append : (p : Text) → ends_with_slash (p ++ codes "/") ≡ true
unfolding ends_with_slash
ends_with_slash-append [] = refl
ends_with_slash-append (c ∷ []) = refl
ends_with_slash-append (c ∷ d ∷ p) = ends_with_slash-append (d ∷ p)

-- Only the end of a text counts.
pub ends_with_slash-append_cons :
    (p : Text) (c : ℕ) (q : Text) → ends_with_slash (p ++ c ∷ q) ≡ ends_with_slash (c ∷ q)
unfolding ends_with_slash
ends_with_slash-append_cons [] c q = refl
ends_with_slash-append_cons (d ∷ []) c q = refl
ends_with_slash-append_cons (d ∷ e ∷ p) c q = ends_with_slash-append_cons (e ∷ p) c q

drop_last-append : (p : Text) (c : ℕ) → drop_last (p ++ c ∷ []) ≡ p
unfolding drop_last
drop_last-append [] c = refl
drop_last-append (d ∷ []) c = refl
drop_last-append (d ∷ e ∷ p) c = ap (d ∷◌) (drop_last-append (e ∷ p) c)

append-drop_last : (p : Text) → ends_with_slash p ≡ true → p ≡ drop_last p ++ codes "/"
unfolding ends_with_slash drop_last
append-drop_last [] h = cc
append-drop_last (c ∷ []) h = ground arith
append-drop_last (c ∷ d ∷ p) h = ap (c ∷◌) (append-drop_last (d ∷ p) h)

longer : {c : ℕ} (p : Text) → c ∷ (p ++ codes "/") ≢ codes "/"
longer [] e = cc
longer (d ∷ p) e = cc

-- A path that is not empty, with a slash appended, is normalised to the path.
normalize_path-append_slash : (p : Text) → p ≢ [] → normalize_path (p ++ codes "/") ≡ p
unfolding normalize_path
normalize_path-append_slash [] h = absurd (h refl)
normalize_path-append_slash (c ∷ p) h = ground (
  arith,
  ends_with_slash-append (c ∷ p),
  drop_last-append (c ∷ p) b'/',
  longer p,
  ===_iff (c ∷ p ++ codes "/") (codes "/"),
)

pub normalize_path_fixed :
    (c : ℕ) (p : Text) → ends_with_slash (c ∷ p) ≡ false → normalize_path (c ∷ p) ≡ c ∷ p
unfolding normalize_path
normalize_path_fixed c p h = ground (arith, ===_iff (c ∷ p) (codes "/"))

pub normalize_path_cases :
    (p : Text) → p ≢ [] → (normalize_path p ≡ p) ⊎ (p ≡ normalize_path p ++ codes "/")
unfolding normalize_path
normalize_path_cases [] h = absurd (h refl)
normalize_path_cases (c ∷ p) h =
    ground (arith, append-drop_last (c ∷ p), ===_iff (c ∷ p) (codes "/"))

pub normalize_path-ne-nil : (p : Text) → normalize_path p ≢ []
unfolding normalize_path
normalize_path-ne-nil [] = ground arith
normalize_path-ne-nil (c ∷ p) =
    ground (arith, append-drop_last (c ∷ p), ===_iff (c ∷ p) (codes "/"), ===_refl (codes "/"))

pub normalize_path-Lacks : (p : Text) → Lacks b'?' p → Lacks b'?' (normalize_path p)
unfolding normalize_path
normalize_path-Lacks [] h = omega arith
normalize_path-Lacks (c ∷ p) h = elim (normalize_path_cases (c ∷ p) (λ e. cc)) [
  | inl same ↦ rw same h
  | inr cut ↦
      All-append_left (λ d. d ≢ b'?') (normalize_path (c ∷ p)) (codes "/")
        (subst (Lacks b'?') cut h)
]
