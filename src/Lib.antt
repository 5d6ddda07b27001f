-- ===== src/Lib.antt =====
-- Verification of aah, a web framework in Go: the parts of it that decide what a request reaches and
-- what a subject may do, as functions of their state, with the theorems about them.
--
-- The parts and how they meet. The domains and their routes are loaded from a configuration
-- (config, router/router.go). A request passes a chain of middlewares (middleware.go). The first
-- finds its domain and route (router.go): the domain (router/domain.go) by the host
-- (router/router.go), then the tree of the request's method, in which the path is looked up
-- (router/tree.go); where there is no route it redirects, serves a file or replies with an error.
-- The next ones answer a CORS preflight by the policy of the route (router/cors.go), check what the
-- request accepts (bind.go), ask a form for its anti-CSRF token (security.go, security/anticsrf),
-- whose secret is kept in a cookie that the cookie manager (security/cookie) signs and encrypts,
-- and ask the subject to sign in by the route's scheme. The route says which roles and permissions
-- it needs (router/route.go), and these are tested against the subject's authorization info
-- (security/authz). Only then the action runs, on the context (context.go) and the reply (reply.go)
-- that all of these share. The session of a subject (security/session) is encoded by the same
-- cookie manager, and kept in a cookie or in a store. The application publishes its life cycle
-- through the event store (event.go).
--
-- The files and the code:
--   Prelude, Text           what all use: Boolean tests, lists, calls that may panic (Outcome),
--                           integers, and the functions of Go's strings package with
--                           essentials/string.go and StrToBytes of essentials/format.go
--   Authz                   security/authz: Permission is permission.go (NewPermissioncs,
--                           Implies, Equals, String), Pool its sync.Pool, Info is
--                           authorization_info.go, Slices the append of Merge on a store of slices
--   Config                  config/config.go: the values and sections of a configuration, by profile
--   Router.Escape           url.PathUnescape of Go's library
--   Router.Tree             router/tree.go: Tree has the nodes, Insert add and insertEdge, Lookup
--                           the loop of lookup
--   Router.Cors             router/cors.go: AddOrigins and its kin, the tests of a preflight,
--                           processBaseCORSSection, processCORSSection
--   Router.Route            router/route.go: HasAccess, parseAuthorizationInfo,
--                           parseAuthorizationValues
--   Router.Paths            path.Clean and path.Join of Go's library
--   Router.Constraints      router/util.go: parseRouteConstraints, parameterConstraint
--   Router.Load             router/router.go: Section is parseSectionRoutes, Static parseStaticSection,
--                           Domains processRoutesConfig with processStaticRoutes and processRoutes
--   Router.Hosts            router/router.go: Lookup, FindDomain, CreateRouteURL
--   Router.Domain           router/domain.go: Lookup, LookupByName, AddRoute, Allowed, RouteURL,
--                           RouteURLNamedArgs, inferKey, isAuthConfigured
--   Cookie                  security/cookie/cookie.go: NewManager, Encode, Decode, with AESEncrypt,
--                           AESDecrypt and Verify of security/acrypto/crypto.go
--   AntiCsrf                security/anticsrf: RequestCipherSecret, SaltCipherSecret, CipherSecret,
--                           SetCookie and the tests of methods and origins
--   Session                 security/session: Session is session.go, Values its getters and the
--                           conversions of values, Manager the manager with its cookie and its
--                           store, FileStore file_store.go
--   Events                  event.go: the EventStore
--   Engine.Context, Reply   context.go and reply.go: the request's state and the reply
--   Engine.Chain            middleware.go: Next, createRouteAction, invalidateMwChain
--   Engine.Routing          router.go: RouteMiddleware, with handleRouteNotFound and what it calls
--   Engine.Preflight        router.go: CORSMiddleware
--   Engine.Bind             bind.go: BindMiddleware
--   Engine.Csrf             security.go: AntiCSRFMiddleware
--   Engine.Scheme           what a scheme of security/scheme and the providers of an application answer
--   Engine.Authentication   security.go: doAuthentication, doFormAuth, doOAuth2, doAuthScheme
--   Engine.Access           security.go: AuthcAuthzMiddleware and hasAccess
--   Engine.Pipeline         these middlewares in the order in which applications register them
-- A file below a part's file proves what its name says; the Tests of a part run it on small inputs.
--
-- How the code is written here:
--   * A struct is a record and a slice or a map a list; the order of a map's list is the order in
--     which a loop visits it, so that what is proved holds for any order. A pointer that may be nil is
--     an Option. Code that changes a struct returns the changed one.
--   * An index, a slice or a nil pointer that makes Go panic is a result of its own (Outcome.panics,
--     Result.panics, out_of_range), never a default value.
--   * A text is a list of bytes, and letter case is that of ASCII; a header's name, a path and a role
--     outside ASCII are not covered.
--   * The loop of the tree's lookup runs on fuel. Each round goes to a child, or from a static child
--     to the wildcard child beside it, so that twice the height of the tree is enough. The
--     other functions are by recursion on a list, but for the loading of routes.
--   * router.go infers the wildcard child of each node after all routes are added; here it is computed
--     from the edges.
--   * Loading nested routes runs on fuel, one unit for a level of sections, of which a configuration has
--     as many as it is nested deep.
--   * Numbers are unbounded where the code's stay far from their limits (times, priorities); the
--     uint8 of countParams stops at 255 here as there.
--   * A pool of permissions hands out what was put last or a new one.
--
-- Parameters, each standing for a library or for code outside the part: HMAC, the key stream of
-- AES-CTR, base64 and decimals (Cookie.Primitives, with the laws that are used in Cookie.Laws),
-- time.ParseDuration, aes.NewCipher, sort.Slice, the comparison of two functions, the schemes that
-- the security manager knows, and random bytes, which are arguments; gob and the file system
-- (Session.RoundTrip, Session.FileStore); net/url, the static file manager and the validation of
-- constraints (Engine.Routing, with net/url in Router.Domain.Named); the media types of a request
-- (Engine.Bind); the forge library, which holds the tree of a configuration (Config.Forge); what a
-- scheme and an application's providers answer (Engine.Scheme).
--
-- Not modelled: the parser of the configuration and its operations that change it, what a scheme
-- does to extract and check credentials (security/scheme), the parsing of HTTP headers, renders and
-- the writing of a response, i18n, vfs, caches, views, logging, websockets and the start-up of an
-- application, which are glue over Go's library or are left for later; locks, since every operation
-- is taken as one step; log lines and the texts of errors.
pub mod Prelude
pub mod Text
pub mod AntiCsrf
pub mod Authz
pub mod Config
pub mod Cookie
pub mod Engine
pub mod Events
pub mod Router
pub mod Session
