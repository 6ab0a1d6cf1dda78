-- ===== src/Spa/Screen.antt =====
-- What `App` shows of its state: `renderPage`, the content of the page, the shell around it and the
-- title of the document.
pub mod Filled
use go_resolver.Base.{
  Text, Bool, not, ◌&&◌, Option, none, some, ◌∷◌, ◌++◌, codes, ◌===◌, lookup, or_text,
  if◌then◌else◌,
}
use go_resolver.Base.Url.{UrlParams}
use go_resolver.Route.{Page, Route, active_for_view}
use go_resolver.Route.Menu.{page_titles}
use go_resolver.Spa.{PageState, Spa, route_at}

-- The component that shows a page.
pub data PageComponent : Type 0 where
  dashboard_page_view : PageComponent
  domains_page_view : PageComponent
  records_page_view : PageComponent
  servers_page_view : PageComponent
  analytics_page_view : PageComponent
  settings_page_view : PageComponent
  server_configuration_page_view : PageComponent
  unsupported : Text → PageComponent

unfoldable pub render_page : Page → PageComponent
render_page page =
    if page.view === codes "dashboard"
    then dashboard_page_view
    else if page.view === codes "domains"
    then domains_page_view
    else if page.view === codes "records"
    then records_page_view
    else if page.view === codes "servers"
    then servers_page_view
    else if page.view === codes "analytics"
    then analytics_page_view
    else if page.view === codes "settings"
    then settings_page_view
    else if page.view === codes "serverconfiguration"
    then server_configuration_page_view
    else unsupported (or_text page.view (codes "unknown"))

pub data MainContent : Type 0 where
  app_error : Text → MainContent
  loading_page : MainContent
  page_content : PageComponent → MainContent

-- `mainContent`; both branches at the end of the source's chain are the loading page.
unfoldable pub main_content : PageState → MainContent
unfolding render_page
main_content s = elim s.page [
  | some page ↦ page_content (render_page page)
  | none ↦ elim s.error [
    | some message ↦ app_error message
    | none ↦ if s.loading then loading_page else loading_page
  ]
]

-- The whole screen: content alone, the login page, or content in the shell with the active menu item
-- and the title under the name.
pub data Screen : Type 0 where
  alone : MainContent → Screen
  login_page : Page → Screen
  in_shell : (active title : Text) → MainContent → Screen

-- `pageTitles[view] || "GoResolver"`
unfoldable pub title_of : Text → Text
title_of view = elim (lookup view page_titles) [
  | none ↦ codes "GoResolver"
  | some title ↦ or_text title (codes "GoResolver")
]

-- `page.Active || activeForView(page.View)`, where the shell has a page for the state or the route.
unfoldable pub active_of : Option Page → Text → Text
active_of none view = or_text (active_for_view view) (active_for_view view)
active_of (some page) _ = or_text page.active (active_for_view page.view)

abbrev pub view_of : Option Page → Text → Text
view_of none view = view
view_of (some page) _ = page.view

module _ (u : UrlParams) where
  unfoldable pub screen : Spa → Screen
  unfolding main_content title_of active_of
  screen s =
      let route = route_at u s.location_state in
      let content = main_content s.state in
      if route.view === codes "login"
      then (elim s.state.page [ none ↦ alone content | some page ↦ login_page page ])
      else in_shell (active_of s.state.page route.view) (title_of (view_of s.state.page route.view))
          content

  -- The effect of `[state.page, route.view]`; the dot in the middle is the code unit 183.
  unfoldable pub document_title : Spa → Text
  unfolding title_of
  document_title s =
      let view = (route_at u s.location_state).view in
      codes "GoResolver " ++ 183 ∷ codes " " ++ (elim s.state.page [
        | none ↦ title_of view
        | some page ↦ title_of (or_text page.view view)
      ])
