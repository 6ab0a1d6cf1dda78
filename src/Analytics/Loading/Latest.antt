-- ===== src/Analytics/Loading/Latest.antt =====
-- The page is loading exactly as long as the load of the latest run has not ended.
use go_resolver.Base.{
  ℕ, ◌+◌, ◌≤◌, ◌≡◌, ◌≢◌, ◌↔◌, inl, refl, sym, arith, Bool, true, false, not, List, [], ◌∷◌, In, All,
  ◌==◌, if_ind,
}
use go_resolver.Analytics.Loading.{
  Loader, opened_analytics, cancel_run, load_everything, end_run, Outcome, loaded, failed,
  take_outcome, finish_load, refresh_tick, reload, Runs, opens, loads, finishes, ticks, reloads,
}

-- The loads of other runs are cancelled, and the one of the latest run is not.
abbrev IsBooked : ℕ → List (ℕ × Bool) → Type 0
IsBooked run = All (λ (l : ℕ × Bool). (l.0 ≤ run) × ((l.1 ≡ false) ↔ (l.0 ≡ run)))

record IsSound (s : Loader) : Type 0 where
  booked : IsBooked s.run s.loads
  busy : s.run ≢ 0 → (s.loading ≡ true) ↔ In (s.run, false) s.loads

cancel_run-IsBooked :
    (run : ℕ) (l : List (ℕ × Bool)) → IsBooked run l → IsBooked (run + 1) (cancel_run run l)
unfolding cancel_run
cancel_run-IsBooked run [] h = tt
cancel_run-IsBooked run ((n, c) ∷ l) (h, k) = (ground arith, cancel_run-IsBooked run l k)

end_run-IsBooked : (run n : ℕ) (l : List (ℕ × Bool)) → IsBooked run l → IsBooked run (end_run n l)
unfolding end_run
end_run-IsBooked run n [] h = tt
end_run-IsBooked run n ((m, c) ∷ l) (h, k) =
    if_ind (IsBooked run) (m == n) _ _ (λ _. end_run-IsBooked run n l k)
      (λ _. (h, end_run-IsBooked run n l k))

In-end_run :
    (run n : ℕ) (l : List (ℕ × Bool))
    → In (run, false) (end_run n l) ↔ (In (run, false) l × (run ≢ n))
unfolding end_run
In-end_run run n [] = ground arith
In-end_run run n ((m, c) ∷ l) = ground (arith, In-end_run run n l)

In-IsBooked :
    (run n : ℕ) (c : Bool) (l : List (ℕ × Bool))
    → IsBooked run l
    → In (n, c) l
    → (c ≡ false) ↔ (n ≡ run)
In-IsBooked run n c [] h k = absurd k
In-IsBooked run n c ((m, d) ∷ l) (h, hs) k = grind (arith, In-IsBooked run n c l hs)

load_everything-IsSound : (s : Loader) → IsSound s → IsSound (load_everything s)
unfolding load_everything
load_everything-IsSound s h = record {
  booked = ((omega arith, (λ _. refl, λ _. refl)), cancel_run-IsBooked s.run s.loads h.booked);
  busy = λ _. (λ _. inl refl, λ _. refl);
}

-- The load of the latest run has ended.
ended :
    (s : Loader) (run : ℕ) → run ≡ s.run → (false ≡ true) ↔ In (s.run, false) (end_run run s.loads)
ended s run e =
    let gone = In-end_run s.run run s.loads in
    (λ k. absurd (cc), λ k. absurd ((gone.0 k).1 (sym e)))

finish_load-IsSound :
    (run : ℕ) (cancelled : Bool) (outcome : Outcome) (s : Loader)
    → In (run, cancelled) s.loads
    → IsSound s
    → IsSound (finish_load run cancelled outcome s)
unfolding finish_load take_outcome
finish_load-IsSound run true outcome s here h =
    let other = In-IsBooked s.run run true s.loads h.booked here in
    let kept = In-end_run s.run run s.loads in
    let apart : s.run ≢ run = λ e. absurd (ground (arith, other)) in
    record {
      booked = end_run-IsBooked s.run run s.loads h.booked;
      busy = λ ran. (λ k. kept.1 ((h.busy ran).0 k, apart), λ k. (h.busy ran).1 (kept.0 k).0);
    }
finish_load-IsSound run false loaded s here h = record {
  booked = end_run-IsBooked s.run run s.loads h.booked;
  busy = λ _. ended s run ((In-IsBooked s.run run false s.loads h.booked here).0 refl);
}
finish_load-IsSound run false (failed message) s here h = record {
  booked = end_run-IsBooked s.run run s.loads h.booked;
  busy = λ _. ended s run ((In-IsBooked s.run run false s.loads h.booked here).0 refl);
}

refresh_tick-IsSound : (s : Loader) → IsSound s → IsSound (refresh_tick s)
unfolding refresh_tick
refresh_tick-IsSound s h =
    if_ind IsSound (not s.in_flight) _ _ (λ _. record { booked = h.booked; busy = h.busy }) (λ _. h)

Runs-IsSound : {s : Loader} → Runs s → IsSound s
unfolding opened_analytics reload
Runs-IsSound opens = record { booked = tt; busy = λ ran. absurd (ran refl) }
Runs-IsSound (loads {s} r) = load_everything-IsSound s (Runs-IsSound r)
Runs-IsSound (finishes {s} r run cancelled outcome here) =
    finish_load-IsSound run cancelled outcome s here (Runs-IsSound r)
Runs-IsSound (ticks {s} r) = refresh_tick-IsSound s (Runs-IsSound r)
Runs-IsSound (reloads r) = let h = Runs-IsSound r in record { booked = h.booked; busy = h.busy }

-- In every state that the page reaches after its effect has run, it is loading exactly if the load of
-- the latest run has not ended and is not cancelled, and every other load that has not ended is
-- cancelled.
pub latest_load :
    (s : Loader)
    → Runs s
    → s.run ≢ 0
    → ((s.loading ≡ true) ↔ In (s.run, false) s.loads)
      × ((n : ℕ) (c : Bool) → In (n, c) s.loads → (c ≡ false) ↔ (n ≡ s.run))
latest_load s r ran =
    let h = Runs-IsSound r in (h.busy ran, λ n c. In-IsBooked s.run n c s.loads h.booked)
