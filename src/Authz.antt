-- ===== src/Authz.antt =====
-- Who may do what: the role matrix, the guards in front of the routes, and the group scope.
pub mod Permissions
pub mod Guards
pub mod Scope
pub mod Resolvers
pub mod GroupScope
mod Tests
