-- ===== src/Filter.antt =====
-- The filters of the lists: `reviewFilters` of `admin/src/lib/filter.ts`, and `applyFilters` of
-- `mobile/src/state/filters.ts`, which also sorts.
pub mod Admin
pub mod Mobile
pub mod Exact
mod Tests
