-- ===== src/Lib.antt =====
-- Nexus AI Gateway: an HTTP gateway in Go that authenticates a caller, resolves the tenant, limits the
-- rate, plans a chain of models and tries them in turn, and records what happened. This library models
-- its core, and states what makes it correct.
--
-- Parts, and the files that model them:
--   Prelude          tests, lists, text and maps that the others share
--   Domain           internal/domain: errors.go (Errors), api_key.go (Keys, Scopes), organization.go and
--                    project.go (Tenancy), routing_policy.go (Policy), request_record.go and
--                    usage_event.go (Requests), task.go (Tasks), model_alias.go, provider.go and budget.go
--                    (Models)
--   Provider         internal/provider/provider.go, and registry.go (Registry); the three adapters
--                    openai/adapter.go, anthropic/adapter.go and gemini/adapter.go (OpenAi, Anthropic,
--                    Gemini), over the steps that they spell out alike (Adapter: `Chat` and the opening
--                    of a stream; Stream: the goroutine of `StreamChat`), and their registration in
--                    cmd/gateway-api/main.go (Adapters)
--   Routing          internal/routing/engine.go: `RoutePlan` is route_plan of Plan, over the pools of
--                    Pools, the switch of Select and `analyzeComplexity` of Complexity; the other
--                    children prove: Unique (deduplication), Shape and Registered (where candidates come
--                    from), Chain (the whole plan), Pinned, Auto
--   Storage          internal/storage/redis/client.go (Redis), and of internal/storage/postgres:
--                    task_repo.go (Tasks); api_key_repo.go, organization_repo.go and project_repo.go
--                    (Tenancy), over the statements of Rows; request_record_repo.go (Records);
--                    provider_repo.go, routing_policy_repo.go and model_alias_repo.go (Catalog), over
--                    the statements of Merging
--   Config           internal/config/config.go: `Load` is load, `loadDotEnv` is load_dot_env
--   RateLimit        internal/ratelimit/limiter.go: `Check` is check
--   Auth             internal/auth: keygen.go and hash.go (Keys), validator.go (Validator)
--   Tenant           internal/tenant/resolver.go: `Resolve` is resolve
--   Http             internal/http/handlers: response.go (Response), tasks.go (Tasks), models.go
--                    (Models), auth_cli.go (Supabase, Provision, and AuthCli with serve_cli_key and
--                    rotate_key), organizations.go, projects.go, providers.go and requests.go (Admin),
--                    api_keys.go (Admin/Keys), usage.go (Admin/Usage), and chat.go, whose `ServeHTTP` is
--                    serve of Chat: steps 1 to 5 are the functions serve_token to serve_decoded, step 6
--                    is provider_request of Prompt, step 8 route_plan, step 9 execute of Failover, and
--                    steps 10 to 13 are conclude over Completion
--   Switchyard       cmd/switchyard: safety.go (Safety, and Paths for what it uses of path/filepath);
--                    tools.go, the parsing of edits (Parsing) and their application (Edits); main.go,
--                    prices and statistics (Session), credentials and `sendChatConversation` (Calls);
--                    daemon.go (Daemon, and Daemon/Served for the gateway's handlers behind it);
--                    login_web.go (WebLogin); completer.go (Completer); context.go (Context); config.go
--                    (RepoConfig)
--   Examples         concrete inputs, and the theorems applied to them
--
-- How the parts meet: `serve` threads the state of Redis through `validate` and `check`, and hands the
-- tenant's project to the policy store and the plan to the failover loop. An outcome holds the
-- response, what is saved and emitted, and the metrics. A handler that panics, at an error that is
-- nil, at a status that `WriteHeader` refuses or at a negative number that a counter is given, has no
-- response. The administration handlers work on the tables of Storage, and the validator reads keys
-- from the same table. The daemon is given a gateway as a record of three calls with a state of its
-- own; the handlers of Http.Tasks over the table of tasks fill it. What it is answered goes through
-- Calls, Parsing and Edits.
--
-- Conventions. Go's `error` is one type with `nil`; `(T, error)` is a pair where both matter, and
-- `Result` where one or the other is given. Numbers that Go keeps in `int` are unbounded here. Floats
-- are scaled to whole numbers: a complexity is in hundredths, the cost of a plan in dollars over 4 *
-- 10^9, the price of a token, a cost and a budget of a session in 10^-9 dollars; the rounding of
-- floats is not modelled, and a float that is only passed on is its bit pattern. Times are
-- nanoseconds; Postgres keeps whole microseconds, to which those of tasks and of request records are
-- cut, while those of keys, organizations, projects, connections, policies and aliases are taken to be
-- whole microseconds as they are. The counts of tokens of a reply, and with them costs and totals, are
-- integers in the gateway, and may be negative; in the terminal client they are taken not to be.
-- Texts are valid UTF-8; `strings.ToLower` covers ASCII and Latin-1. The window of a limit is short
-- enough for `Duration.Seconds` to be exact (some 2^22 seconds).
--
-- Parameters, as they are not code of this repository: Redis (its documented behaviour is
-- `Storage.Redis.Documented`), the JSON text of a key, SHA-256, the stores behind interfaces, the
-- clock, fresh UUIDs and random bytes, the latency of a request, what the providers' HTTP services,
-- Supabase and git reply, the errors of the disk, the encoding and decoding of JSON, the orders in
-- which Go ranges over the map of keywords and the map of providers, the lines that bufio.Scanner
-- reads of a file, the entries of a directory, and the ports that can be bound.
--
-- Bounds: the loops recurse on the lists they range over, and the loop of a stream on its lines.
-- `decimal` has fuel above its argument, which bounds the count of its digits. The search for blocks
-- in a response has one more unit of fuel than the response has characters, and each round leaves
-- fewer of them. The login tries the 11 ports from 45454 on.
--
-- Not modelled: the HTTP server with its routes and middleware, logging, metrics, tracing, migrations
-- and the connection to Postgres, which are wiring and I/O; the queue of usage events; and of the
-- terminal clients the interactive loop, flags, printed reports, the printed manifest of edits, the
-- rollback, which is git's, and cmd/nexus-cli, an earlier form of cmd/switchyard. Paths are those of
-- systems with the separator '/'; symbolic links are not followed. Log lines are left out of the
-- handlers. The goroutine of `saveAndEmit` is given by what it saves and emits, without its order
-- among other requests, and a stream by the chunks that are sent, without the buffer of the channel.
-- The timeouts of HTTP clients show only as their errors. In the login a save of the credentials is one
-- event: two handlers whose writes overlap are not modelled.
pub mod Prelude
pub mod Domain
pub mod Provider
pub mod Routing
pub mod Config
pub mod Storage
pub mod RateLimit
pub mod Auth
pub mod Tenant
pub mod Http
pub mod Switchyard
pub mod Examples
