-- ===== src/Update.antt =====
-- The update of a server's configuration, from the form in the browser to the calls of the service:
-- web/frontend/src/pages/server-config-page.tsx submits the form, and
-- internal/handlers/serverconfiguration_update.go reads and saves it.
pub mod Numbers
pub mod Submission
pub mod Reading
pub mod Columns
pub mod Sites
pub mod ErrorPages
pub mod NginxSites
pub mod Policies
pub mod Service
pub mod Handler
mod Tests
