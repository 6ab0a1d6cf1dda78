-- ===== src/FormState.antt =====
-- web/frontend/src/pages/server-config-helpers.ts: the state of the server configuration form, made of
-- the page that the server sent (web/frontend/src/types.ts).
pub mod Nginx
pub mod Rules
pub mod Sites
pub mod Policies
pub mod State
mod Tests
