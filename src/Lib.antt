-- ===== src/Lib.antt =====
-- The verification library of chur, a webhook that gives Kubernetes pods their secrets: an admission
-- webhook patches a pod so that an init container, chur-init, fetches a secret from a provider and
-- writes it to a memory volume that the containers mount; the keeper is a server that hands secrets
-- to chur-init over mutual TLS.
--
-- The parts and how they meet. The admission server decodes a review and calls the mutator with the
-- pod; the mutator checks the annotations with the validators and returns JSON patches, which the
-- API server applies. The patched pod runs chur-init with the environment that the mutator built;
-- chur-init checks that environment with the same validators and the size parser, and asks a
-- provider for the secret. The keeper provider asks the keeper's handler, which asks a backend.
--
-- Which file models which part:
-- - Webhook/Pod, Config, ProviderEnv, InitEnv, Volumes, Containers, Mutator:
--   internal/webhook/mutator.go. MutatePod is `mutate_pod`, and each helper function of the source
--   has the source's name in snake case; a JSON pointer is a constructor of `PatchPath`. The
--   iteration order of a Go map is the order of a list of entries.
-- - Webhook/JsonPatch: what the API server does with a patch, as an interface with the laws of
--   RFC 6902; Webhook/Applied: the pod after its patches.
-- - Webhook/Server: internal/webhook/server.go. The metrics and the audit records are a log that
--   `mutate` extends.
-- - Validate: internal/validate/validate.go. An error is a `Reason`.
-- - ByteSize: internal/bytesize/bytesize.go. StrConv: the standard library's ParseInt.
-- - LogSafe: internal/logsafe/logsafe.go.
-- - ReadUtil: internal/readutil/read.go. Io: the readers of the standard library.
-- - EnvName: the environment variables that the webhook and chur-init share.
-- - Init: cmd/init/main.go; Init/Retry: its two retry loops.
-- - Providers: internal/providers/env/env.go, internal/providers/local/local.go and
--   internal/keeper/filesystem/filesystem.go. Registry: internal/provider/provider.go.
-- - Providers/KeeperClient: internal/providers/keeper/keeper.go. Providers/K8s:
--   internal/providers/k8s/k8s.go.
-- - Keeper/Handler: handleGetSecret of internal/keeper/server.go, and Keeper/ServerTls its
--   ServerTLSConfig. Keeper/Exec and Keeper/LimitedWriter: internal/keeper/exec/exec.go.
--   Keeper/HttpBackend: internal/keeper/http/http.go. Keeper/Config: internal/keeper/config.go.
--   Keeper/Command: cmd/keeper/main.go, with the calls that open and close something as a list.
--   Keeper/Client: the keeper's handler as the server of the keeper provider.
-- - Tls: internal/tls/tls.go and internal/webhook/tls.go; Tls/SelfSigned: its generated certificates.
-- - Webhook/Command: cmd/webhook/main.go, its configuration, and Webhook/Command/Start: the rest up to
--   the servers. Webhook/Agreement: the webhook and chur-init together.
-- - Supervisor: how Serve of internal/keeper/server.go and run of cmd/webhook/main.go run two HTTP
--   servers and stop them, as steps of the goroutines in any order.
-- - Slots: the requests of ServeHTTP (internal/webhook/server.go) and handleGetSecret
--   (internal/keeper/server.go) on their semaphore, as steps in any order, and NewServer.
-- - Http: what the program uses of Go's HTTP client.
-- - Text, Dict, Url, FilePath: what the program uses of Go's strings (bytes, with the UTF-8 decoding
--   of a range loop), maps, net/url and path/filepath. Base: the shared names, lists over the
--   native numbers, results with an error, int64. Url/Unescape and
--   Url/Query: how a server reads a query.
-- - Tests: concrete pods, an API server, environments and requests, and the theorems at them.
--
-- Parameters: the JSON and Kubernetes decoders and encoders, the choice of a Go select between a
-- context's end and another event, the results of the file system calls, the process that the exec
-- backend runs, the crypto library, url.Parse and url.JoinPath, the HTTP client, the Kubernetes client
-- and, for chur-init and the keeper's handler, the providers and backends they call. A decoder of a
-- JSON object gives a map, whose keys are distinct; where the keeper provider meets the keeper, the
-- decoder reads what the encoder wrote. Of the HTTP servers the model takes that Serve returns once
-- Shutdown has been called, and that Shutdown returns.
--
-- Bounds and fuel: an int64 wraps around at 64 bits where the source computes with it; the loops are
-- structural, and the retry loops count down from the source's five attempts. A run of the two servers
-- needs no fuel: each step uses up one of the actions that are left.
--
-- Not modelled: messages of errors, log records but the audit record, durations and delays, the
-- settings of the HTTP servers and their health endpoints, the declarations of the metrics, and the
-- results of the closing calls where they are only logged.
pub mod Base
pub mod Text
pub mod FilePath
pub mod StrConv
pub mod ByteSize
pub mod Validate
pub mod LogSafe
pub mod Io
pub mod ReadUtil
pub mod Dict
pub mod Url
pub mod EnvName
pub mod Webhook
pub mod Init
pub mod Keeper
pub mod Tests
pub mod Providers
pub mod Registry
pub mod Tls
pub mod Supervisor
pub mod Http
pub mod Slots
