-- ===== src/Lib.antt =====
-- identity-platform-go: an OAuth 2.1 authorization server (auth-server) and the services around it.
-- The model covers auth-server from its HTTP handlers to its in-memory repositories,
-- the authorization-policy-service, whose permissions the tokens carry, entitlements-service,
-- client-registry-service and identity-service.
--
-- Base: lists, maps (an association list for a Go map), results (a Go pair of a value and an error,
-- and a method on shared state that may fail), and strings.Join and strings.Fields (Base/Words).
--
-- Auth: services/auth-server/internal.
--   Auth/Domain and Auth/Requests are the records of domain/.
--   Auth/Details parses authorization_details and Auth/Dpop validates DPoP proofs.
--   Auth/Store is adapters/outbound/memory: one function for each repository method. A method holds
--   its mutex from beginning to end, so it is one step. Auth/Store/Devices is the device repository,
--   Auth/Store/Single the contract of the repositories with a Consume method and
--   Auth/Store/Instances the repositories that meet it.
--   Auth/World holds the state of all the repositories and, in Env, what the services are
--   constructed with. What is not in the repository is a field of Env: the clock and the random
--   source as sequences, the JWT library (jwtutil) as functions that sign and, at the clock's
--   reading, parse, SHA-256, the
--   other services as functions that may fail, and the audit sink as the answer to each event.
--   Auth/Clients is client authentication, Auth/Tokens the generators and validators of
--   token_service.go and rs256_token.go, Auth/TokenService introspection and revocation.
--   Auth/Grants has one module for each strategy of application/: ClientCredentials, Code with
--   IdToken, Refresh, Device, Exchange and Saml; Registry dispatches to them and stores the audit
--   event. Auth/Store/Abstract is the code repository as a plain map.
--   Auth/Http is adapters/inbound/http: Token, Authorize, IssueCode, Inspection and DeviceEndpoint
--   have one function for each handler of handler.go and device_authorization.go, Limiter and
--   Throttle the rate limit. A request is what its accessors return; Site is the configuration with
--   the decoders of encoding/json and net/url; a handler's early return is a failure with that
--   reply. Auth/Http/Flow runs any of the handlers in any order on one state.
--
-- Policy: services/authorization-policy-service/internal (policy_service.go, specification.go and
-- the in-memory repositories).
--
-- Entitlements: services/entitlements-service/internal, the seats of an account
-- (application/account_service.go and adapters/outbound/memory/account_repo.go): handing over the
-- ownership and removing a seat. Entitlements/Invites is application/invite_service.go with
-- invite_repo.go, and Entitlements/Plans is the creation of personal accounts and the activation of
-- plans, with plan_repo.go. Each of the three has the part of the state that its operations use.
--
-- Registry: services/client-registry-service/internal. Registry is the in-memory repository and what
-- the services call, Registry/Clients is client_service.go, Registry/Registration the RFC 7591
-- registration and Registry/Management the RFC 7592 operations of registration.go.
--
-- Identity: services/identity-service/internal. Identity is the users and verification tokens of
-- adapters/outbound/memory, where two maps share a record, and what the services call;
-- Identity/Accounts is auth_service.go, Identity/Verification email_verification_service.go and
-- Identity/Preferences user_preferences_service.go with its repository.
--
-- A handler runs against one state from its first line to its last; the interleaving inside handlers
-- is studied at the repositories, where the single-use guarantees come from. Loops are structural, so
-- no fuel is used. Times are nanoseconds in unbounded numbers; error values carry the code by which
-- callers branch, without the message.
--
-- Not modelled: net/http, JSON and XML decoding and cryptography, which are parameters, response
-- headers, the Redis, Postgres and SQLite adapters, configuration and wiring, the
-- token-introspection-service, and the listing of a user's seats.
pub mod Auth
pub mod Base
pub mod Entitlements
pub mod Identity
pub mod Policy
pub mod Registry
