-- ===== src/Pages.antt =====
-- What the pages of the admin client compute from the cases in scope.
pub mod Dashboard
pub mod Cases
pub mod Sla
pub mod Reviews
pub mod StoreBoard
pub mod Boards
pub mod StoreTable
pub mod Causes
pub mod Voice
pub mod Tasks
pub mod AskAi
pub mod Approvals
pub mod Pipeline
pub mod DetailView
pub mod Notifications
pub mod InboxView
pub mod Rows
pub mod Improve
pub mod Settings
pub mod Org
pub mod Overview
pub mod Listings
pub mod Detail
pub mod Login
pub mod Inbox
pub mod BothClients
pub mod DrillDown
mod Tests
mod EventTests
mod ViewTests
