-- ===== src/Lib.antt =====
-- GoResolver: the frontend of the control panel (web/frontend/src), a single-page application, and the
-- handlers of its server (internal/handlers) that save the server configuration and the DNS records.
--
-- The program. `App` (web/frontend/src/app.tsx) keeps the location of the page, a cache of page bodies,
-- a refresh token, the page requests that are pending, and what it shows. `resolveRoute` makes a route
-- of a location; the load effect shows the route's own page, its error, a cached page, or requests the
-- route's API path. Clicks, submitted forms, the history of the browser and the answers to mutations
-- change the location and the cache. The pages get the body of an answer: the server configuration page
-- makes the state of its form of it, and the analytics page makes queries of its filters. The form of
-- the server configuration and the dialog of a record are posted to the server, whose handlers read them
-- and call the services. The other forms of that page ask for one action each, among them adding a rule to
-- the firewall of the host and lifting the ban of an address, which is a rule and a row of a table.
--
-- The files.
-- - Base and its modules: tests on numbers, optional values, texts (lists of UTF-16 code units, literals
--   are ASCII), association lists for the objects and maps of the program, decimals (`String(n)`), and
--   `UrlParams`, which stands for the browser's `URLSearchParams`.
-- - Route: `normalizePath`, `activeForView`, `sameLocation`, `buildLoginPage` and `resolveRoute` of
--   web/frontend/src/app.tsx; Route/Menu has `navItems` and `pageTitles` of web/frontend/src/common.tsx.
-- - Spa: the state of `App` and its callbacks (`syncLocation`, `navigate`, `navigateUrl`, `refresh`,
--   `invalidateRouteCache`, `handleMutationResponse`); Spa/Loading the load effect and the requests;
--   Spa/Events the listeners for clicks, forms and the history, and `fetchJSON` of
--   web/frontend/src/common.tsx; Spa/Screen what `App` shows of its state; Spa/Steps the
--   runs of the page as a step relation. The other modules of Spa hold its invariants: Requests and Books
--   on what is asked and pending, Invariant on the dependencies and the page shown, Waiting on the
--   callbacks that end a loading.
-- - FormState: web/frontend/src/pages/server-config-helpers.ts, with the records of
--   web/frontend/src/types.ts: Nginx, Sites and Policies for the rows, Rules for the firewall rule form,
--   State for `buildServerConfigFormState` and `updateListItem`.
-- - Analytics: web/frontend/src/pages/analytics-page.tsx: Filters, Queries for the URLs, Callbacks for
--   `applyFilters`, `resetFilters`, the quick search and the lists of incidents, Loading for the effect
--   that loads everything and its timer, Format for `formatBytes`, Badges for `summarizeFilters`,
--   Profile for the dialog of an address and the requests that change an incident, Hosts for `loadHosts`.
-- - Settings: the search, the groups and the active group of `SettingsPageView` of
--   web/frontend/src/pages/core-pages.tsx; the browser's `toLowerCase` is a parameter.
-- - Markup: `escapeTooltipHTML` of web/frontend/src/common.tsx; Markup/Tooltip the tooltip of the ranking
--   chart.
-- - Charts: the refs of `EChart` and `MapCard` of web/frontend/src/common.tsx, from their mounting to their
--   unmounting, while the libraries behind them are imported.
-- - Records: the dialog of `RecordsPageView` of web/frontend/src/pages/core-pages.tsx; Records/Saving the
--   handlers of internal/handlers/record_handler.go with internal/services/record_service.go, over the
--   statements of the database as parameters.
-- - Firewall: `iptables` and `ip6tables` as an interface (`Iptables`) with the laws of listing, deleting and
--   inserting (`IsIptables`); Firewall/Comments `DeleteRuleByComment` of
--   internal/services/serverconfiguration_service.go, Firewall/Families and Firewall/Rules the family of a
--   rule and its arguments, of internal/services/firewall_helpers.go, and `AddRule`; Firewall/Example a
--   firewall that obeys the laws.
-- - Fail2ban: `banFail2BanIP`, `UnbanFail2BanIP` and `cleanupExpiredFail2BanBans` of
--   internal/services/serverconfiguration_fail2ban.go, over the firewall and the table of the bans (`Bans`).
-- - Actions: the actions of internal/handlers/serverconfiguration_actions.go and their handlers;
--   Actions/Inference guesses the action of a form that names none, Actions/Post is `HandlePost`;
--   Actions/Forms the forms of web/frontend/src/pages/server-config-page.tsx, and Actions/RuleForms the
--   dialog of a rule with the handler `AddRule` and `parseArgs` of
--   internal/handlers/serverconfiguration_handler.go.
-- - ConfigPage: what `ServerConfigurationPageView` keeps beside its form, `ActionForm` of
--   web/frontend/src/common.tsx, and in ConfigPage/Editor the dialogs for the files of the error pages.
-- - Update: the saving of the server configuration, from the page to the service. Update/Submission has
--   the entries that the browser submits for the form of web/frontend/src/pages/server-config-page.tsx;
--   Update/Numbers, Reading, Sites, ErrorPages, NginxSites and Policies read them as
--   internal/handlers/serverconfiguration_update.go and serverconfiguration_handler.go do
--   (`loadServerConfigurationUpdateData`, `atoiOrZero`, `applyDDoSFromForm`, `applyFail2BanFromForm`);
--   Update/Service is the interface of what the handler calls, and Update/Handler the handler `Update`;
--   Update/Handler/Shown has the calls that the rows and panels of the page mean, Update/Handler/Stages the
--   stages of the handler, and Update/Handler/Steps
--   how a list of calls is carried out, against which the handler is held.
--
-- How the model is made.
-- - An event is applied at once; `commit` is a render with the load effect after it, which runs if its
--   dependencies have changed. A callback of `App` that reads the current route takes the location of
--   the render that made it. Promises are numbered, and a settled request calls back every
--   subscription of its promise, in order; a cleanup marks the subscriptions of its run as cancelled.
-- - A location has no question mark in its path, and its search is empty or begins with one
--   (`IsLocation`), as the browser gives it. The path and the search of a submitted form's URL are
--   parsed by the browser, which is not part of the model: `Url` has them as fields.
-- - The numbers of the frontend that are modelled are natural; the `int` of the server is a signed
--   number, and `strconv.Atoi` cuts it to 64 bits. All recursion is structural; no fuel is used.
-- - The entries of a form are the values of its controls: a control of one line has no line break, and a
--   text area sends each as CR LF.
-- - The service behind the handler, with its database and its hosts, is a record of calls over a state of
--   any type. A loop over rows is a fold of calls that stops at the first error.
--
-- Not modelled: React's rendering and the JSX of the pages, the formatting of dates and floating-point
-- numbers, the option objects of the charts, and the rest of the server, whose services are SQL, files
-- and remote commands.
pub mod Base
pub mod Route
pub mod Spa
pub mod FormState
pub mod Analytics
pub mod Markup
pub mod Settings
pub mod Update
pub mod Charts
pub mod Records
pub mod Firewall
pub mod Fail2ban
pub mod Actions
pub mod ConfigPage
