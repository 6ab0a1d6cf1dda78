-- ===== src/Spa/Books.antt =====
-- The books that `App` keeps of its page requests: which names are pending and outstanding.
use go_resolver.Base.{
  Text, ◌≡◌, ◌≢◌, some, List, [], ◌∷◌, ◌++◌, ℕ, ◌<◌, lookup, insert, lookup-insert, lookup-erase,
  ===_iff, ===_refl, length, length-append, In, arith,
}
use go_resolver.Spa.Loading.{remove_outstanding, forget}

-- The books of the requests: each pending name is outstanding, and a number has one name.
pub record IsBooked (requests : List Text) (pending : List (Text × ℕ)) (out : List (ℕ × Text))
    : Type 0 where
  pub pending_out : (name : Text) (n : ℕ) → lookup name pending ≡ some n → In (n, name) out
  pub below : (n : ℕ) (name : Text) → In (n, name) out → n < length requests
  pub named_once : (n : ℕ) (a b : Text) → In (n, a) out → In (n, b) out → a ≡ b

module _ (n m : ℕ) (name : Text) where
  pub In-remove_outstanding :
      (out : List (ℕ × Text)) → m ≢ n → In (m, name) out → In (m, name) (remove_outstanding n out)
  unfolding remove_outstanding
  In-remove_outstanding [] ne h = h
  In-remove_outstanding ((k, other) ∷ out) ne h = ground (arith, In-remove_outstanding out ne)

  remove_outstanding-In :
      (out : List (ℕ × Text)) → In (m, name) (remove_outstanding n out) → In (m, name) out
  unfolding remove_outstanding
  remove_outstanding-In [] h = h
  remove_outstanding-In ((k, other) ∷ out) h = ground (arith, remove_outstanding-In out)

-- What is still pending was pending, and is not the request that settled.
kept :
    (pending : List (Text × ℕ)) (n : ℕ) (name other : Text) {m : ℕ}
    → lookup other (forget n name pending) ≡ some m
    → lookup other pending ≡ some m
unfolding forget
kept pending n name other found = ground (arith, lookup-erase name other pending)

forgotten :
    (pending : List (Text × ℕ)) (n : ℕ) (name other : Text)
    → lookup other (forget n name pending) ≡ some n
    → (lookup other pending ≡ some n → other ≡ name)
    → ⊥
unfolding forget
forgotten pending n name other found same =
    let e : other ≡ name = same (kept pending n name other found) in
    let mine : lookup name (forget n name pending) ≡ some n = rw e at found in
    ground
      (arith, mine, kept pending n name name mine, lookup-erase name name pending, ===_refl name)

forget_out :
    (pending : List (Text × ℕ)) (out : List (ℕ × Text)) (n : ℕ) (name : Text)
    → In (n, name) out
    → ((other : Text) (m : ℕ) → lookup other pending ≡ some m → In (m, other) out)
    → ((m : ℕ) (a b : Text) → In (m, a) out → In (m, b) out → a ≡ b)
    → (other : Text) (m : ℕ) → lookup other (forget n name pending) ≡ some m
    → In (m, other) (remove_outstanding n out)
unfolding forget
forget_out pending out n name here listed once other m found =
    In-remove_outstanding n m other out
      (λ same.
        forgotten pending n name other (rw same at found)
          λ h. once n other name (listed other n h) here)
      (listed other m (kept pending n name other found))

-- The books after a request has settled.
pub settled-IsBooked :
    (requests : List Text) (pending : List (Text × ℕ)) (out : List (ℕ × Text)) (n : ℕ) (name : Text)
    → In (n, name) out
    → IsBooked requests pending out
    → IsBooked requests (forget n name pending) (remove_outstanding n out)
settled-IsBooked requests pending out n name here b = record {
  pending_out = forget_out pending out n name here b.pending_out b.named_once;
  below = λ m other h. b.below m other (remove_outstanding-In n m other out h);
  named_once = λ m x y hx hy.
      b.named_once m x y (remove_outstanding-In n m x out hx) (remove_outstanding-In n m y out hy);
}

-- The books after a request has been made.
pub requested-IsBooked :
    (requests : List Text) (pending : List (Text × ℕ)) (out : List (ℕ × Text)) (path name : Text)
    → IsBooked requests pending out
    → IsBooked
        (requests ++ path ∷ [])
        (insert name (length requests) pending)
        ((length requests, name) ∷ out)
requested-IsBooked requests pending out path name b = record {
  pending_out = λ other m found. ground (
    arith,
    lookup-insert name other (length requests) pending,
    b.pending_out other m,
    ===_iff name other,
  );
  below = λ m other h. ground (arith, length-append requests (path ∷ []), b.below m other);
  named_once = λ m x y hx hy. ground (arith, b.below m x, b.below m y, b.named_once m x y);
}
