-- ===== src/Analytics/Profile/Waiting.antt =====
-- What the dialog of a profile shows comes from the requests that were made.
use go_resolver.Base.{
  Text, ℕ, ◌<◌, ◌≤◌, ◌≡◌, ◌≢◌, arith, true, some, List, [], ◌∷◌, ◌++◌, In, inl, inr, ◌==◌, length,
  length-append, All, if_ind,
}
use go_resolver.Analytics.Profile.{
  Profiles, no_profiles, open_ip_profile, Ending, answered, failed, drop_request, end_ip_profile,
  close_profile, Viewing, starts, asks, ends, closes,
}

-- The requests are known ones.
abbrev Below : ℕ → List ℕ → Type 0
Below bound = All (λ n. n < bound)

pub record IsServed (s : Profiles) : Type 0 where
  pub waits : s.profile_loading ≡ true → s.pending ≢ []
  pub made : Below (length s.asked) s.pending
  pub shown : (n : ℕ) → s.active_profile ≡ some n → n < length s.asked

Below-raise : (a b : ℕ) (ns : List ℕ) → a ≤ b → Below a ns → Below b ns
Below-raise a b [] le h = tt
Below-raise a b (n ∷ ns) le (h, k) = (omega arith, Below-raise a b ns le k)

Below-drop_request : (n b : ℕ) (ns : List ℕ) → Below b ns → Below b (drop_request n ns)
unfolding drop_request
Below-drop_request n b [] h = tt
Below-drop_request n b (m ∷ ms) (h, k) =
    if_ind (Below b) (m == n) _ _ (λ _. Below-drop_request n b ms k)
      (λ _. (h, Below-drop_request n b ms k))

In-Below : (n b : ℕ) (ns : List ℕ) → In n ns → Below b ns → n < b
In-Below n b [] i h = absurd i
In-Below n b (m ∷ ms) (inl e) (h, _) = omega arith
In-Below n b (m ∷ ms) (inr i) (_, k) = In-Below n b ms i k

one_more : (urls : List Text) (url : Text) → length urls < length (urls ++ url ∷ [])
one_more urls url = rw (length-append urls (url ∷ [])) (omega arith)

open_ip_profile-IsServed :
    (url : Text) (s : Profiles) → IsServed s → IsServed (open_ip_profile url s)
unfolding open_ip_profile
open_ip_profile-IsServed url s h =
    let longer = one_more s.asked url in
    record {
      waits = λ _ e. cc;
      made = (
        longer,
        Below-raise (length s.asked) (length (s.asked ++ url ∷ [])) s.pending (omega arith) h.made,
      );
      shown = λ n e. let k = h.shown n e in omega arith;
    }

end_ip_profile-IsServed :
    (n : ℕ) (e : Ending) (s : Profiles)
    → In n s.pending
    → IsServed s
    → IsServed (end_ip_profile n e s)
unfolding end_ip_profile
end_ip_profile-IsServed n answered s here h = record {
  waits = λ k. absurd (cc);
  made = Below-drop_request n (length s.asked) s.pending h.made;
  shown = λ m e.
      let k : n ≡ m = cc in
      let below = In-Below n (length s.asked) s.pending here h.made in omega arith;
}
end_ip_profile-IsServed n (failed message) s here h = record {
  waits = λ k. absurd (cc);
  made = Below-drop_request n (length s.asked) s.pending h.made;
  shown = h.shown;
}

-- In every state of the dialog, it is marked as loading only while a request for a profile has not
-- ended, and the profile that it shows is the answer to a request that was made.
pub Viewing-IsServed : (s : Profiles) → Viewing s → IsServed s
unfolding no_profiles close_profile
Viewing-IsServed _ starts = record {
  waits = λ k. absurd (cc);
  made = tt;
  shown = λ n e. absurd (cc);
}
Viewing-IsServed _ (asks {s} v url) = open_ip_profile-IsServed url s (Viewing-IsServed s v)
Viewing-IsServed _ (ends {s} v n e here) = end_ip_profile-IsServed n e s here (Viewing-IsServed s v)
Viewing-IsServed _ (closes {s} v) =
    let h = Viewing-IsServed s v in record { waits = h.waits; made = h.made; shown = h.shown }
