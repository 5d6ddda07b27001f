-- ===== src/Engine.antt =====
-- The HTTP engine: the middlewares of a request (router.go, security.go, middleware.go) and the reply
-- that they build (reply.go), on the context of one request.
pub mod Reply
pub mod Context
pub mod Chain
pub mod Routing
pub mod Preflight
pub mod Bind
pub mod Csrf
pub mod Scheme
pub mod Authentication
pub mod Access
pub mod Pipeline
mod Tests
