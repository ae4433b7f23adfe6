-- ===== src/Lib.antt =====
-- ax-go: a library for Go command-line tools that agents drive, and the gates of its repository.
--
-- The program's parts, and the files that model them:
--
--   Contract    package contract (contract/*.go) and the root facades error.go, json.go, context.go,
--               mode.go and trace.go: output modes, the values that a context carries, error
--               envelopes with their exit codes, JSON output on one line, and warnings.
--   Runtime     the root package's command runtime: guarded side effects (guard.go: Runtime/Guard),
--               the confirmation gate (confirm.go: Runtime/Confirm), the reported version
--               (version.go: Runtime/Version), Execute (execute.go, warnings.go: Runtime/Execute,
--               with the tree passes in Tree, the persistent hook in PreRun, finishCommand in Finish
--               and the deferred steps in Lifecycle), and what --dry-run does to all that a command
--               guards (Runtime/Flagged).
--   Telemetry   internal/telemetry/telemetry.go: sanitized diagnostics, and the exporter that
--               reports an outage once.
--   Loki        loki.go: labels of a log line (Labels), the streams of a push (Streams), the queue
--               and its background goroutine (Worker).
--   Config      internal/config/config.go and config/config.go: the bounded read (Read), options,
--               errors, Parse and Patch (Parse), PatchFile (Parse/PatchFile), and the atomic write
--               (Atomic).
--   Apidiff     internal/cmd/apidiff-verdict/main.go: the gate on the public API: findings
--               (Finding), the report and the verdict (Report), the summary (Render) and the check
--               of the package list (Allowlist).
--   Covercheck  internal/cmd/covercheck/main.go: the coverage gate: floors and their check, and the
--               profile (Profile).
--   Deadcheck   internal/cmd/deadcheck/report.go and main.go: the gate on unreachable functions: its
--               report, its scope, and the builds it goes through; Everywhere: what it refuses.
--   Schema      the values of flags (internal/schema/convert.go: Convert), the enums and examples
--               that are declared on them (declare.go: Flags); declarations.go: what prompts and
--               resources are valid (Validate), the templates of prompts (Template), the annotations
--               of a command (Declare), and the declarations of a tree (Walk); schema.go: the
--               reflection of commands and flags (Reflect); nondeterministic.go: the locators of a
--               type and of a command (Locators); the class of a command, of declare.go
--               (Capability); the keys in messages, of conflict_error.go (Keys). Pflag holds what is
--               read of a flag.
--   Mcp         internal/mcp/mcp.go: the commands of a tree that are tools (Callable), and what a
--               tool says of its command (Inputs, Advertised).
--   McpServer   internal/mcpserver/dispatch.go: a tool call from request to reply (Call), its
--               arguments (Arguments), the reset of the shared flags (Flags), and the error of a call
--               (Errors); prompts.go: the answer to prompts/get (Prompts); server.go: the tools that
--               are served and the command that a call goes to (Tools); listorder.go: the order of a
--               listing (Listing).
--   Common      shared types, texts, numbers, sorting and the library names.
--   Tests       runs at concrete inputs.
--
-- How they interact: the hook of Execute resolves the mode and puts mode, dry run, approval and
-- idempotency key on the context; Guard, Perform and Confirm read them there; metadata and errors
-- take their identifiers from it; finishCommand maps the command's error by ErrorExitCode, fills the
-- envelope, and writes it by WriteError, which is WriteJSON of the envelope. Lifecycle runs
-- finishCommand and then the deferred steps, whose diagnostics are sanitized by Telemetry.
--
-- How state is modelled: a Go function on shared state is a function from the state to the state, a
-- sequence of calls is a run over a list of events, and a goroutine is a step function whose events
-- may come in any order. A text is a list of code points, or of bytes where a module says so;
-- numbers are the native ℕ, and signed values a ℤ over it, for values that the source never
-- overflows. A Go error is the tree that errors.Is and errors.As walk. A map is an association list;
-- where the source walks a map, the theorem says that the order does not matter.
--
-- Fuel: the loop of ReadBounded has maxBytes + 2 rounds of fuel; each round but the last takes a
-- byte, so the outcome out_of_fuel never occurs, which is proved. The two loops of the placeholder
-- scan have one round more than the text has bytes; each round goes on by two bytes or more, and the
-- scan is proved equal to a structural reading. The loop of locatorElementType has the fuel that the
-- caller gives; on a type that contains only itself it does not end, so the fuel is supposed to be
-- enough for every type of the table. Every other loop is structural recursion.
--
-- Parameters: io.Reader is a record with its documented law on sizes; json.Unmarshal of a log line,
-- encoding/csv, ParseFloat, ParseDuration and the Set of pflag for flag values, pflag and Cobra in a
-- tool call, the command's own run, its hooks, flush and shutdown callbacks, the build information,
-- fresh identifiers, the deadcode program, its JSON, the table of upper case letters and the scheme
-- of a URL are arguments; a reflect.Type is a number that a table describes; the JSON of
-- declarations and of lists of strings is a codec that reads back what it wrote. Hujson and
-- encoding/json are a record of operations without laws; each call of the file system fails as a
-- record of faults says.
--
-- Machine integers: the sums and products of covercheck and the size of a rendered prompt are 64-bit
-- patterns with their wrap-around, and the theorem on its floors states the sizes at which nothing
-- wraps; the other numbers are small or only compared.
--
-- Not modelled: Cobra's parsing and dispatch, OpenTelemetry, HTTP, zerolog, the MCP transport, and
-- the analyzers, which consist of calls of third-party packages or wait for a later extension
-- (components of the manifest say which).
pub mod Common
pub mod Contract
pub mod Runtime
pub mod Telemetry
pub mod Loki
pub mod Config
pub mod Apidiff
pub mod Covercheck
pub mod Deadcheck
pub mod Schema
pub mod Mcp
pub mod McpServer
pub mod Tests
