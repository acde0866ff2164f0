-- ===== src/Server/Handlers.antt =====
-- What the handlers keep of the database, one file for each package.
pub mod Users
pub mod Tenants
pub mod Roles
pub mod Permissions
pub mod Assignments
pub mod Resources
pub mod Actions
pub mod Keys
pub mod Apps
pub mod AdminKeys
pub mod SignIn
