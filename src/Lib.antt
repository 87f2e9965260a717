-- ===== src/Lib.antt =====
-- Verification of svidmint, a SPIFFE identity server: a workload proves with evidence of its
-- platform who it is, and gets an X.509 or JWT SVID for the SPIFFE ID of the registration entry
-- that its claims match.
--
-- The program and its model
--   A request to internal/server goes through the attestor registry (internal/attestor), which
--   turns evidence into claims; the entry store (internal/entry), which finds the best entry for the
--   claims; and the certificate authority (internal/ca), which signs. The command line
--   (internal/cli) builds a server from its configuration (internal/config) and manages entries and
--   the root; a workload uses the client library (sdk/go). The files follow these parts.
--   Base        names of the libraries and what the parts share: tests, results, integers of 64
--               bits, text, association lists for Go's maps.
--   Glob        `path.Match` of Go's standard library, which entries and repositories are matched by.
--   Entry       internal/entry. Entry/Types is types.go. Entry/Matcher is matcher.go: `MatchEntries`
--               is match_entries, `allSelectorsMatch` all_selectors_match. Entry/JsonStore is
--               jsonstore.go: the state is the store with its map, and the files; Create, Get, List,
--               Update, Delete and Match are create, get, list, update, delete and match_.
--               Entry/SqlStore is sqlite.go, postgres.go and scan.go over a database `Sql`; Open has
--               how the stores are opened, and the operations of postgres.go by their own names.
--   Ca          internal/ca. Ca/Types is types.go with the fields of x509 certificates. Ca/Ttl is
--               `computeTTL` of self_signed.go. Ca/SelfSigned has the rest of that file: Defs the
--               methods of `SelfSignedCA`, Roots the root and the intermediate, Disk the files,
--               Create `NewSelfSignedCA`. Ca/Federation is federation.go; `Start` is the relation
--               Started, of the fetches that its ticker makes.
--   Attestor    internal/attestor: AwsLambda is aws_lambda.go, Github github_oidc.go, Cloudflare
--               cloudflare_workers.go, Deno deno_deploy.go, Registry registry.go; Jwks is the
--               download of keys that three of them make; Calls has what they call.
--   Server      internal/server: Attest is attest.go, Validate validate.go, Publish bundle.go,
--               jwks.go and health.go, Routes server.go and the logging of middleware.go. Counters
--               are a list of increments in the state.
--   Config      internal/config/config.go.
--   Mapper      internal/mapper/mapper.go: `DeriveSpiffeID` is derive_spiffe_id.
--   Sdk         sdk/go: Client is client.go and jwtsource.go, Attestors attestors.go, Source
--               x509source.go, Tls tls.go, Types types.go. Source/Loop is the goroutine
--               `refreshLoop` beside the callers of `Close`, as a step relation.
--   Cli         internal/cli: Entries is entry.go, Authority ca.go, Start server.go and
--               internal/entry/loader.go. A command is a function of its flags.
--   Tests       the properties at concrete inputs.
--
-- Conventions
--   A Go function that returns a value and an error is a function to `Result`; a method that changes
--   its receiver returns the new state beside its answer. The clock, random keys, serials and UUIDs
--   are arguments. Times are nanoseconds as integers; a product of seconds wraps at 64 bits as
--   `time.Duration` does. Go's maps are association lists; where the order of a map could matter,
--   it is a statement that it does not.
--   Packages outside the repository are parameters: `Crypto` (crypto/x509, go-jose, go-spiffe,
--   net/url), `Encoding`, `Codec` and `Formats` (encoding/pem, json, base64), `Os`, `Sql` and
--   `Driver` (database/sql), `can_remove` (os.Remove), `Viper`, `Mux` and `Network` (net/http),
--   and `World` (HTTP and the decoding of tokens, during one call). Their documented behaviour
--   stands in named hypotheses: `ReadsBack`, `RoundTrips`, `SamePayload`, `Shortens`, `Selects`,
--   `TableLaws`, `Interop`, `ChecksAudience`.
--
-- Fuel
--   The glob matcher runs on one more than the length of the pattern, of which every round takes at
--   least one character. The loop over PEM blocks runs on one more than the length of the text; a
--   block takes at least one character.
--
-- Not modelled
--   Texts of errors that other packages make, file modes, durations in the log, net/http's own
--   listening and shutting down, cobra's parsing of flags and its printing, the wait for a signal,
--   the version command, and the TypeScript client, which is in another language. Handlers run one
--   after another: each takes the server's state as it is when it starts.
pub mod Base
pub mod Glob
pub mod Entry
pub mod Ca
pub mod Attestor
pub mod Server
pub mod Config
pub mod Mapper
pub mod Sdk
pub mod Cli
pub mod Tests
