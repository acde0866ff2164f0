-- ===== src/System/Writes.antt =====
-- The writes of the API keep what the statements keep, one module for each part.
pub mod Apps
pub mod Tenants
pub mod Users
pub mod Roles
pub mod Resources
pub mod Actions
pub mod Assignments
pub mod Permissions
pub mod Keys
pub mod Identities
