-- ===== src/Lib.antt =====
-- funcbox hosts functions: small JavaScript bundles with a manifest that a server stores,
-- authorizes and runs in warm pools of a JavaScript engine. This library models the parts of
-- the Go program that decide, and proves what they decide.
--
-- How the parts interact: a deployment unpacks a bundle (bundle/unpack.go), finds and reads its
-- manifest (manifest/) and stores its normalized form; the manifest's fetch permission is one
-- level of the fetch policy (policy/), whose other levels are those of the organization and the
-- workspace. Who may deploy or manage is the permission matrix (server/internal/authz). What is
-- in effect for an invocation is resolved from the settings
-- (server/internal/invoke/effective.go). A request is served by the pool of its version, which
-- the manager keeps warm (runtime/manager.go); what the guest prints and fetches is captured
-- per invocation (server/internal/invoke/logcapture.go). Login rules admit an address
-- (server/internal/auth/loginrules.go), and a first login derives a public User ID
-- (server/internal/auth/user_id.go), and the registration of OAuth clients is rate limited
-- (server/internal/oauth/ratelimit.go). Such a client exchanges an authorization code for an
-- access token and a refresh token, and a refresh token for new ones
-- (server/internal/oauth/token.go); the access tokens are signed and verified in
-- server/internal/auth/accesstoken.go. A deploy resolves and authorizes its owner, claims the
-- function's name within its limit and activates a new version
-- (server/internal/service/deploy.go, server/internal/store/sqlcommon/functions.go). On the
-- command line, ignore rules choose the files of a bundle (internal/cli/ignore.go).
--
-- Files and code:
-- - Prelude: lists, byte strings, results `(T, error)` and maps, with their lemmas.
-- - Go: what the program uses of the standard library (strings, strconv, net, path with Clean
--   and Match, utf8), written out over bytes. ToLower, EqualFold and TrimSpace are the
--   functions on ASCII texts.
-- - Labels: the regular expression that policy/pattern.go (hostLabelRE) and
--   manifest/validate.go (nameRE) share.
-- - Policy.Fetch, Policy.Pattern, Policy.Visibility, Policy.Ssrf: policy/fetch.go,
--   pattern.go, visibility.go, ssrf.go. `effective`, `decision`, `parse_pattern`, `matches`,
--   `min_visibility` and `blocked_ip` are Effective, Decision, ParsePattern, Matches,
--   MinVisibility and BlockedIP.
-- - Manifest: manifest/; Manifest.Parse is parse.go (`parse` is Parse), Manifest.Validate
--   validate.go, Manifest.Main main.go, Manifest.Size size.go, Manifest.Reserved reserved.go,
--   Manifest.Normalized normalized.go. The record `Decoders` holds the YAML decoder,
--   time.ParseDuration and float64.
-- - Auth.UserId: server/internal/auth/user_id.go. `derive_user_id` takes the answers of the
--   store as a function and fuel for the loop of DeriveUserID, which has no bound; the code's
--   counter is an int of 64 bits, and the rounds are the code's for fuel below 2^63 - 2.
-- - Auth.LoginRules: server/internal/auth/loginrules.go. `evaluate_login_rules` is
--   EvaluateLoginRules.
-- - Auth.Accounts: server/internal/auth/session.go, the checks on an account. The record
--   `Directory` is what the store answers.
-- - Auth.AccessToken: server/internal/auth/accesstoken.go, and the bearer half of
--   Authenticate. The record `Codec` is JSON, base64 and HMAC.
-- - Runtime.Manager: runtime/manager.go. `Manager` has the map, the LRU list and the
--   goroutines that wait to close a pool; `acquire` is the locked part of HandlerFor,
--   `finish_build` the end of a Build, `invalidate` and `close_manager` are Invalidate and
--   Close, and `reap` is a goroutine that closes a pool. `Step` is one of these, and `Reach`
--   any interleaving of them.
-- - Server.Authz: server/internal/authz/authz.go. Roles are strings, as in the store.
-- - Server.RateLimit: server/internal/oauth/ratelimit.go. `allow` takes the time that it
--   reads from the monotonic clock. One token is counted as `interval` nanoseconds, so that
--   refilling is addition; the code divides in float64.
-- - Server.LogCapture: server/internal/invoke/logcapture.go. A goroutine is its id; `Tracker`
--   has the map from goroutines to pointers and the heap of captures that they point at.
-- - Server.Pool: server/internal/invoke/pool.go, buildFetchPolicy.
-- - Server.Effective: server/internal/invoke/effective.go, with the settings of
--   server/internal/settings/settings.go that it reads. The record `Store` holds the rows and
--   the JSON decoder.
-- - Server.Oauth: Grants and Codes are the statements of
--   server/internal/store/sqlcommon/oauthgrants.go and oauthauthcodes.go on their tables;
--   Request and Token are server/internal/oauth/token.go. `handle_token` is handleToken;
--   `begin_refresh` and `finish_refresh` are handleRefreshTokenGrant before and from its call
--   of Rotate. `Env` is what one request meets: SHA-256, randomness, the clock, and which
--   statements fail. Traffic is any interleaving of requests, steps of refreshes, new codes and
--   deletions.
-- - Server.Functions: server/internal/store/sqlcommon/functions.go and ActivateVersion of
--   aggregate.go, on the tables of Tables with their constraints; a failure of the database in
--   the middle of Delete is a number of statements that ran. Changes is any sequence of
--   operations.
-- - Server.Service: server/internal/service. Access is who may deploy, manage and view;
--   Deploy is Deploy with the checks of the upload, and Publish what it does from the
--   resolution of the owner on; Manage is functions.go. `Outside` is what Deploy calls of other
--   packages and libraries. `Site` and `Run` are what the store answers and which calls fail.
--   The Runtime of a Deployer is there.
-- - Bundle.Paths, Bundle.Unpack, Bundle.Pack: bundle/unpack.go and pack.go. An archive is
--   what archive/tar reads from it: its headers, the contents behind each and whether it ends
--   well.
-- - Cli.Ignore: internal/cli/ignore.go. `new_matcher` and `ignores` are NewMatcher and Match.
--
-- Loops are structural recursion on what they range over. The one loop on fuel is that of
-- DeriveUserID, whose fuel is an argument, since the loop of the code has no bound either.
--
-- Not modelled: the other stores and the blobs (database and object storage input and output;
-- the statements that are modelled stand for the SQL that the code sends, with the constraints
-- of its migrations), HTTP, MCP and dashboard handlers, the rest of the command line, session
-- cookies, login and the authorization page, the settings that the modelled parts do not read,
-- the JavaScript engine and its pool, the gzip and tar formats, YAML and JSON.
pub mod Prelude
pub mod Go
pub mod Labels
pub mod Policy
pub mod Manifest
pub mod Auth
pub mod Runtime
pub mod Server
pub mod Bundle
pub mod Cli
