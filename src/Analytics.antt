-- ===== src/Analytics.antt =====
-- web/frontend/src/pages/analytics-page.tsx: the filters of the analytics page, the queries made of
-- them, and the callbacks that change them.
pub mod Filters
pub mod Format
pub mod Badges
pub mod Queries
pub mod Callbacks
pub mod Profile
pub mod Hosts
pub mod Loading
mod Tests
