-- ===== src/Authz.antt =====
-- security/authz: permissions (permission.go), the pool of permissions (authz.go) and what a
-- subject may do (authorization_info.go).
pub mod Permission
pub mod Pool
pub mod Info
pub mod Slices
mod Tests
