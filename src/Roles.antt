-- ===== src/Roles.antt =====
-- Roles, menus and the scope of data of the admin client, `admin/src/lib/roles.ts`, and the clamping of
-- the role to the tenant of the account in `admin/src/App.tsx`.
pub mod Table
pub mod Session
pub mod Scope
pub mod Visible
pub mod Tenant
pub mod Masking
mod Tests
