-- ===== src/Analytics/Hosts/Loaded.antt =====
-- What the page shows of its hosts: a mounted page waits for the answer to its own request, or has it.
use go_resolver.Base.{
  Text, ℕ, ◌≡◌, ◌⊎◌, inl, inr, refl, sym, ap, arith, true, false, ◌&&◌, some, List, [], ◌∷◌, In,
  ◌==◌, if_ind,
}
use go_resolver.Analytics.Profile.{Ending, answered, failed, drop_request}
use go_resolver.Analytics.Hosts.{
  Hosts, mount_hosts, show_ending, end_hosts, HostsLives, fresh, mounts, unmounts, ends,
}

-- The request of the run is on its way, its hosts are shown, or its error has been.
abbrev IsLoaded : Hosts → Type 0
IsLoaded s =
    s.active ≡ true
    → In s.run s.pending
      ⊎ ((s.hosts ≡ some s.run) ⊎ ((message : Text) × In (s.run, message) s.alerts))

In-drop_request : (n m : ℕ) (ms : List ℕ) → In m ms → (n == m) ≡ false → In m (drop_request n ms)
unfolding drop_request
In-drop_request n m [] h k = absurd h
In-drop_request n m (x ∷ ms) h k = ground (arith, In-drop_request n m ms)

shown-IsLoaded :
    (n : ℕ) (ending : Ending) (s : Hosts) → n ≡ s.run → IsLoaded (show_ending n ending s)
shown-IsLoaded n answered s e mounted = inr (inl (ap some e))
shown-IsLoaded n (failed message) s e mounted =
    inr (inr (message, inl (ap (λ k. (k, message)) (sym e))))

not_own :
    (n : ℕ) (s : Hosts)
    → ((n == s.run) && s.active) ≡ false
    → s.active ≡ true
    → (n == s.run) ≡ false
not_own n s other mounted = ground arith

end_hosts-IsLoaded :
    (n : ℕ) (ending : Ending) (s : Hosts) → IsLoaded s → IsLoaded (end_hosts n ending s)
unfolding end_hosts
end_hosts-IsLoaded n ending s h =
    if_ind IsLoaded ((n == s.run) && s.active) _ _
      (λ own.
        shown-IsLoaded n ending (record s { pending = drop_request n s.pending }) (ground arith))
      (λ other mounted. elim (h mounted) [
        | inl waiting ↦ inl (In-drop_request n s.run s.pending waiting (not_own n s other mounted))
        | inr ended ↦ inr ended
      ])

-- In every state of a page that is mounted, the request of its last run has not ended, or the hosts that
-- it shows are the answer to that request, or the error of that request has been shown.
HostsLives-IsLoaded : {s : Hosts} → HostsLives s → IsLoaded s
unfolding mount_hosts
HostsLives-IsLoaded fresh = λ h. cc
HostsLives-IsLoaded (mounts off r) = λ h. inl (inl refl)
HostsLives-IsLoaded (unmounts r) = λ h. cc
HostsLives-IsLoaded (ends n ending pending r) =
    end_hosts-IsLoaded n ending _ (HostsLives-IsLoaded r)
