-- ===== src/Router.antt =====
-- router: the path tree (tree.go), the policies (cors.go), the access rules (route.go), the constraints
-- (util.go), the domain (domain.go) and the domains of an application by host
-- and how they are loaded (router.go).
pub mod Escape
pub mod Tree
pub mod Cors
pub mod Route
pub mod Paths
pub mod Constraints
pub mod Domain
pub mod Hosts
pub mod Load
