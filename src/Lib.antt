-- ===== src/Lib.antt =====
-- A verification library for pmcluster, the control plane of a small Docker Swarm cluster, and its
-- edge.
--
-- The program has these parts. The edge proxy stands in front of the daemon and resolves the
-- client's address, applies bans, lists, rate limits and a bound on the requests in flight. The
-- daemon keeps its data in SQLite. Its stacks service parses a manifest, renders it, records a
-- revision, takes a backup and hands the stack to Docker. Webhooks start a deploy under a
-- signature, and users reach the API with bearer tokens. The webhook handler and the API call the
-- stacks service, and that calls the store; the edge knows the daemon only as an upstream.
--
--   Base               texts as lists of code points, maps as association lists, rows of a table and
--                      the statements on them, results, native numbers
--   Edge/Net, RealIp   pmcluster/internal/edgeproxy/realip.go: xff, RealIP, hostOnly, parseNets
--   Edge/Bans          blocklist.go: banStore and autoBan
--   Edge/Blocklist     blocklist.go: blocklist.isBlocked
--   Edge/Limits        ratelimit.go: perIPLimiter, pathHasPrefix, RateLimiter
--   Edge/Shield        shield.go: ConnectionShield, as operations and as a step relation
--   Edge/Handler       proxy.go: the chain of middlewares that New builds and its routes, for one
--                      request
--   Store/Configs      pmcluster/internal/store/configs.go: one function for each statement or
--                      transaction
--   Store/Stacks       store/stacks.go: RecordDeploy, NextFreeRevision, DeleteStack and the reads
--   Store/Backups      store/backups.go
--   Backups            pmcluster/internal/backups/local.go: Trigger, discover, prune and the listings
--   Store/Webhooks     store/webhooks.go: sources and deliveries
--   Store/Secrets      store/secrets.go
--   Secrets            pmcluster/internal/secrets/local.go
--   Workflow           pmcluster/internal/workflow/workflow.go: Add, Steps, Run
--   Manifest/Dsl       pmcluster/pkg/dsl/types.go
--   Manifest/Refs      pmcluster/internal/refs/envref.go
--   Manifest/Validate  pmcluster/internal/manifest/validate.go
--   Manifest/Interpolate
--                      manifest/interpolate.go
--   Manifest/Ir        manifest/ir.go
--   Manifest/Translate
--                      manifest/translate.go: BuildIR
--   Manifest/Compose   manifest/compose.go
--   Manifest/Labels    manifest/compose_writer.go: the labels of a deploy block
--   Manifest/Writer    manifest/compose_writer.go: ComposeWriter.Write up to yaml.Marshal
--   Deploy/World       what the steps of pmcluster/internal/stacks/deploy.go act on
--   Deploy/Pipeline    Deploy, Sync and runPreDeployBackup
--   Deploy/Toolchain   stacks/resolver.go and manifest.TranslateIR: the compiler that Deploy calls
--   Deploy/Rollback    Rollback
--   Deploy/Undeploy    Undeploy
--   Webhooks/Wire      pmcluster/internal/webhooks/receiver.go: the headers and the signed message
--   Webhooks/Receiver  receiver.go: verifyHMAC and receive
--   Webhooks/Sources   pmcluster/internal/webhooks/local.go
--   Webhooks/Local     the receiver on the local sources
--   Auth/Token         pmcluster/internal/auth/token.go
--   Auth/Users         pmcluster/internal/store/users.go
--   Auth/Bearer        pmcluster/internal/auth/middleware.go
--   Tests              runs on concrete inputs
--
-- The child modules of a component hold its proofs, each named for what it is about.
--
-- State is a record that is passed on; an error is a value. A transaction that fails gives no
-- tables, since it is rolled back; statements outside a transaction give the tables with the
-- error. The functions of other packages are parameters: IP addresses and networks (Net), the
-- token bucket (Buckets), the matching of routes by chi and the daemon's answers (Server),
-- SHA-256, HMAC, the cipher of the secrets, Argon2id, base64, JSON and YAML, Docker and the backup
-- (Platform). Deploy is stated for any stages of the manifest compiler (Compiler);
-- Deploy/Toolchain puts the modelled stages in their place.
--
-- Bounds. Times are natural numbers, nanoseconds at the edge and Unix seconds in the daemon, but
-- for the retention of the backups, which reads a clock in nanoseconds: its product of days is a
-- word of 64 bits that wraps, read with its sign. The loop of NextFreeRevision is recursion on its
-- 10000 attempts. Decimal numbers are printed with 20 digits as fuel, and an int64 has 19; the
-- writer prints a number with one more than the number. A limit or a duration that is not positive
-- is 0. The retry after a missing parent row in RecordDeploy is the foreign key of the table of
-- revisions.
--
-- Simplifications. A Go map is the list of its entries in one order of visiting them, and a service
-- of a manifest is never nil. A statement fails by a constraint of its table and in no other way,
-- so a broken connection, a full disk and a cancelled context are not modelled. A new row of the
-- config tables and of the backups gets the id after the largest one stored. A request is handled
-- at one time and as one step, but for the bound on the requests in flight, which is about
-- interleavings.
--
-- Where a comment or a document of the repository says otherwise than the code, the definitions
-- follow the code. This is so for the hostname that needs no dot (docs/dsl.md), for repo_url and
-- file, which a webhook must have, for the status 502 of every failed deploy and 413 of a long
-- body, and for the case of a signature's digits and the timestamp that is signed
-- (docs/webhook.md, the comments of receiver.go).
--
-- Not modelled: the YAML and JSON decoders of the manifest compiler, the remaining tables, the UI,
-- the command line, the HTTP routes of the daemon, telemetry, logging, the Docker client,
-- certificates and the scripts.
pub mod Base
pub mod Edge
pub mod Store
pub mod Workflow
pub mod Manifest
pub mod Deploy
pub mod Tests
pub mod Webhooks
pub mod Auth
pub mod Backups
pub mod Secrets
