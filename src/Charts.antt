-- ===== src/Charts.antt =====
-- The chart and the map of web/frontend/src/common.tsx: what `EChart` and `MapCard` make and take away
-- while the libraries behind them are imported.
pub mod Chart
pub mod Map
mod Tests
