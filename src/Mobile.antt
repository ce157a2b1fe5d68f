-- ===== src/Mobile.antt =====
-- The mobile client.
pub mod Domain
pub mod Roles
pub mod Session
pub mod Mock
pub mod Client
pub mod Facets
pub mod CaseItem
pub mod KpiCard
pub mod CaseScreen
pub mod CaseList
pub mod Drawn
pub mod Overview
pub mod Menu
pub mod Screens
pub mod LoginView
pub mod Optimistic
pub mod Queries
pub mod Journey
mod Tests
mod ScreenTests
