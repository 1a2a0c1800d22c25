-- ===== src/Lib.antt =====
-- The core logic of cpa-github-copilot, a proxy that serves GitHub Copilot accounts to clients of
-- the OpenAI and Anthropic protocols.
--
-- The program has two parts. internal/app is the server: it admits clients (security.go), orders the
-- accounts for a request (server.go, affinity.go), keeps the accounts' budget guards, credentials
-- and catalogs up to date (accounts.go), and hands a request to internal/copilot. That package
-- knows the upstream service: which models it serves in which format (models.go), and how its event
-- streams are cut into frames (stream_sse.go) and forwarded to the client (stream.go).
--
-- App/Gate: memoryGate of internal/app/security.go, with the weights that inference asks for.
-- App/ClientKey: clientKey of security.go. Addresses are numbers; net/netip's parsing is not modelled.
-- App/Limiter: authLimiter and admitCredential of security.go. The hash is a parameter.
-- App/Affinity: bindSession of internal/app/affinity.go.
-- App/Candidates: candidates of internal/app/server.go, over the accounts of App/Account.
-- App/Failover: the loop over the accounts in inference of server.go, with retryAccount. What checkQuota,
--   refresh, catalog and the engine lead to comes with each account.
-- App/Relay: the loop over the chunks of a stream in inference.
-- App/Usage: recordUsage, recordLog, flushUsage and usageTokens of server.go.
-- App/PublicModels: publicModels of server.go.
-- App/Quota: checkQuota of internal/app/accounts.go, one function per section under the mutex.
-- App/Flights: checkQuota, refresh and catalog of accounts.go, run by any number of goroutines: a
--   step relation whose steps are the sections under the account's mutex.
-- App/Persist: updateAccount, persistAuth and deleteAccount of accounts.go, in their two sections.
-- Copilot/Models: IsSupportedCopilotModelID, selectModelFormat and inferModelFormat of
--   internal/copilot/models.go.
-- Copilot/Catalog: parseDiscoveredModels, setModelRoutes and resolveModelRoute of models.go.
-- Copilot/Endpoints: internal/copilot/endpoints.go up to trustedCopilotHost.
-- Copilot/Prepare: prepareInference of internal/copilot/executor.go, with decodeCopilotStorage of auth.go.
-- Copilot/Payload: the normalization of a body for its route in executor.go, by format.
-- Copilot/Execute: executeRequest of executor.go behind the HTTP request, with the statuses of bodies.
-- Copilot/QuotaAnswer: internal/copilot/quota.go, behind the HTTP request.
-- Copilot/Framer: sseFramer of internal/copilot/stream_sse.go.
-- Copilot/Terminal: responsesTerminalTracker of internal/copilot/stream.go and the status of frames.
-- Copilot/Forward: forwardStreamPassThrough and forwardTranslatedStream of stream.go.
-- Common: the shared helpers: lists, maps, byte strings, integers, sorting, decoded JSON.
-- Thinking/Levels, Thinking/Suffix: convert.go and suffix.go of internal/thinking.
--
-- A field of a Go struct is a field of the record of that name; a method that changes its receiver
-- is a function that returns the new one, with its result; a map is an association list, whose order
-- is not observed. Times are natural numbers of nanoseconds, and zero is the zero time. Strings and
-- byte slices are lists of bytes, whose white space and case are those of ASCII. A mutex is not
-- modelled: what runs under it is one function, and what may run between two such is a step relation
-- or a sequence of calls.
--
-- Bounds: the only fuel is in the loop of Push, which gets the length of the buffer; each turn takes at
-- least one byte off the buffer, so it is enough. The sequence number of the scheduler wraps at 2 ^ 64,
-- and so do the counters of usage, of which the bit patterns are kept. Other integers are not bounded:
-- they count things in memory or nanoseconds of some hundred years.
--
-- Parameters: url.Parse, net.ParseIP, strconv.Atoi, http.ParseTime, filepath.Match, crypto/sha256,
-- time.Parse, gjson's Int of a path, encoding/json (valid, decoded, encoded), the downstream of a stream
-- (whether it accepts the next payload); and of the program's own code, any functions: the normalizer
-- of Grok, the converters between the protocols and what wraps their input, the syntax of numbers in
-- quota answers, and, in Copilot/Prepare, the functions of Copilot/Endpoints and Copilot/Payload.
--
-- Not modelled: HTTP, files and logging; the conversions between the protocols (internal/conversion),
-- the validation of signatures (internal/signature), the login (internal/copilot/auth.go), the headers
-- (internal/copilot/headers.go), the tools of Grok and the thinking, tools and system messages of Messages
-- (internal/copilot/grok_responses.go, executor.go), the management handlers and configuration.
pub mod Common
pub mod App
pub mod Thinking
pub mod Copilot
