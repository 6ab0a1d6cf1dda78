-- ===== src/Route/Menu.antt =====
-- The menu and the titles of web/frontend/src/common.tsx: `navItems` (without the icons) and
-- `pageTitles`, against the views that `resolveRoute` gives.
use go_resolver.Base.{
  Text, ◌≡◌, ◌⊎◌, inl, inr, refl, List, [], ◌∷◌, codes, ◌===◌, some, none, lookup, Memᴰ, All,
}
use go_resolver.Base.Url.{UrlParams}
use go_resolver.Route.{Route, resolve_path, resolve_route, normalize_path, active_for_view}
use go_resolver.Route.Outcomes.{
  Resolved, login, dashboard, domains, servers, analytics, settings, records, serverconfiguration,
  unknown, resolve_route-Resolved,
}

pub record NavItem : Type 0 where
  pub href : Text
  pub label : Text
  pub active : Text

abbrev nav_item : Text → Text → Text → NavItem
nav_item href label active = record { href = href; label = label; active = active }

unfoldable pub nav_items : List NavItem
nav_items =
    nav_item (codes "/") (codes "Dashboard") (codes "dashboard")
    ∷ nav_item (codes "/domains") (codes "Domains") (codes "domains")
    ∷ nav_item (codes "/servers") (codes "Servers") (codes "servers")
    ∷ nav_item (codes "/analytics") (codes "Analytics") (codes "analytics")
    ∷ nav_item (codes "/settings") (codes "Settings") (codes "settings")
    ∷ []

unfoldable pub page_titles : List (Text × Text)
page_titles =
    (codes "login", codes "Login")
    ∷ (codes "dashboard", codes "Dashboard")
    ∷ (codes "domains", codes "Domains")
    ∷ (codes "records", codes "Records")
    ∷ (codes "servers", codes "Servers")
    ∷ (codes "analytics", codes "Analytics")
    ∷ (codes "settings", codes "Settings")
    ∷ (codes "serverconfiguration", codes "Server Configuration")
    ∷ []

-- A view with a title, and in the menu unless it is the login page.
pub record IsPresented (view : Text) : Type 0 where
  pub title : (t : Text) × (lookup view page_titles ≡ some t)
  pub menu :
      (view ≡ codes "login")
      ⊎ ((item : NavItem) × Memᴰ item nav_items × (item.active ≡ active_for_view view))

login-IsPresented : IsPresented (codes "login")
unfolding page_titles lookup ◌===◌
login-IsPresented = record { title = (_, refl); menu = inl refl }

dashboard-IsPresented : IsPresented (codes "dashboard")
unfolding page_titles lookup ◌===◌ nav_items active_for_view
dashboard-IsPresented = record { title = (_, refl); menu = inr (_, Memᴰ.head refl, refl) }

domains-IsPresented : IsPresented (codes "domains")
unfolding page_titles lookup ◌===◌ nav_items active_for_view
domains-IsPresented = record { title = (_, refl); menu = inr (_, Memᴰ.tail (Memᴰ.head refl), refl) }

records-IsPresented : IsPresented (codes "records")
unfolding page_titles lookup ◌===◌ nav_items active_for_view
records-IsPresented = record { title = (_, refl); menu = inr (_, Memᴰ.tail (Memᴰ.head refl), refl) }

servers-IsPresented : IsPresented (codes "servers")
unfolding page_titles lookup ◌===◌ nav_items active_for_view
servers-IsPresented = record {
  title = (_, refl);
  menu = inr (_, Memᴰ.tail (Memᴰ.tail (Memᴰ.head refl)), refl);
}

serverconfiguration-IsPresented : IsPresented (codes "serverconfiguration")
unfolding page_titles lookup ◌===◌ nav_items active_for_view
serverconfiguration-IsPresented = record {
  title = (_, refl);
  menu = inr (_, Memᴰ.tail (Memᴰ.tail (Memᴰ.head refl)), refl);
}

analytics-IsPresented : IsPresented (codes "analytics")
unfolding page_titles lookup ◌===◌ nav_items active_for_view
analytics-IsPresented = record {
  title = (_, refl);
  menu = inr (_, Memᴰ.tail (Memᴰ.tail (Memᴰ.tail (Memᴰ.head refl))), refl);
}

settings-IsPresented : IsPresented (codes "settings")
unfolding page_titles lookup ◌===◌ nav_items active_for_view
settings-IsPresented = record {
  title = (_, refl);
  menu = inr (_, Memᴰ.tail (Memᴰ.tail (Memᴰ.tail (Memᴰ.tail (Memᴰ.head refl)))), refl);
}

module _ (u : UrlParams) where
  Resolved-IsPresented :
      (path s : Text) (r : Route) → Resolved u path s r → r.error ≡ none → IsPresented r.view
  Resolved-IsPresented path s r (login _ e) h = rw e login-IsPresented
  Resolved-IsPresented path s r (dashboard _ e) h = rw e dashboard-IsPresented
  Resolved-IsPresented path s r (domains _ e) h = rw e domains-IsPresented
  Resolved-IsPresented path s r (servers _ e) h = rw e servers-IsPresented
  Resolved-IsPresented path s r (analytics _ e) h = rw e analytics-IsPresented
  Resolved-IsPresented path s r (settings _ e) h = rw e settings-IsPresented
  Resolved-IsPresented path s r (records _ _ _ _ e) h = rw e records-IsPresented
  Resolved-IsPresented path s r (serverconfiguration _ _ _ _ e) h =
      rw e serverconfiguration-IsPresented
  Resolved-IsPresented path s r (unknown e) h = cc

  -- The view of a route without an error has a title and, but for the login page, a menu item that
  -- is shown as active.
  resolve_route-IsPresented :
      (p s : Text) → (resolve_route u p s).error ≡ none → IsPresented (resolve_route u p s).view
  resolve_route-IsPresented p s =
      Resolved-IsPresented (normalize_path p) s (resolve_route u p s) (resolve_route-Resolved u p s)

  -- Each menu item leads to a page on which that item is the active one, with any search.
  nav_items-resolve_route :
      (s : Text)
      → All (λ item. active_for_view (resolve_route u item.href s).view ≡ item.active) nav_items
  unfolding nav_items resolve_route normalize_path resolve_path ◌===◌ active_for_view
  nav_items-resolve_route s = (refl, (refl, (refl, (refl, (refl, tt)))))
