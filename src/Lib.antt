-- ===== src/Lib.antt =====
-- openharness: a framework for agent applications in Go. A model of its core, with proofs.
--
-- The harness stores agents, tools, secrets and channels for the tenants of an application, and runs
-- agent loops, whose events a gateway reads. The Lite edition keeps all of this in memory. Beside it,
-- the package tools has the tools that a loop calls, with a registry of its own.
--
-- Files, and the code that they are about:
--   Prelude: lists and tests over native numbers; Result, a Go pair of a value and an error; GoMap, a
--     Go map; Int64, bit patterns of int and int64; Decimal, fmt's %d; Channel, a buffered channel;
--     Context, what ctx.Err() gives; Heap, objects that are shared by reference; Paths, path/filepath;
--     Fields, strings.TrimSpace and strings.Fields.
--   Harness: harness/errors.go and harness/types.go. Harness/StreamStore: harness/stream_store.go,
--     StoreBackedEventStream.
--   Lite/AgentStore: harness/lite/agent.go, LiteAgentStore.
--   Lite/ToolRegistry: harness/lite/registry.go, LiteToolRegistry.
--   Lite/Runner: harness/lite/runner.go, one run and its goroutines; Lite/Runner/Runs: LiteRunner.
--   Lite/SecretStore: harness/lite/secret.go, LiteSecretStore.
--   Lite/ChannelRouter: harness/lite/channel.go, LiteChannelRouter.
--   Lite/SkillStore: harness/lite/skill.go, LiteSkillStore.
--   Lite/ArtifactStore: harness/lite/artifact.go, LiteArtifactStore.
--   Sessions/Store: sessions/store.go, a session as a file of JSON lines.
--   Cost/Pricing and Cost/Tracker: cost/pricing.go and cost/tracker.go.
--   Config/Discovery, Config/Store, Config/Edition: config/discovery.go, config/config.go with
--     config/store.go, edition/edition.go.
--   Tools: tools/tool.go and tools/registry.go, Registry. Tools/Composite: tools/composite.go.
--     Tools/Scrub: tools/scrub.go, tools/external_content.go and tools/core/external_output.go.
--     Tools/Ssrf: tools/ssrf.go, the addresses that a fetch may reach.
--   Tools/Core: Filesystem, tools/core/filesystem.go; Exec, tools/core/exec.go and tools/shell_deny.go;
--     KnowledgeGraph, tools/core/knowledge_graph.go; Memory, tools/core/memory.go; Tasks,
--     tools/core/tasks.go; WebFetch, tools/core/web_fetch.go.
--   Providers/Registry: providers/registry.go, Registry. Providers/Keys: providers/secret.go and
--     providers/openrouter.go, ResolveAPIKeyWithStore and ResolveAPIKey. Providers/Models:
--     providers/types.go and providers/models.go. Providers/OpenaiCompat and Providers/Anthropic:
--     providers/openai_compat.go and providers/anthropic.go, the clients.
-- A definition has the name of the Go function or type in snake case. The children of a module hold
-- its properties, and its Tests the runs at concrete inputs.
--
-- How the code is read:
--   A method under a mutex is a function from the state to the reply and the new state. Where calls
--     interleave (the runner, the event stream) each part under a lock and each operation on a channel
--     is one step, and the statements are about every sequence of steps.
--   time.Now() is an argument, and so is the order in which a range visits a map: IsRange says that it
--     visits each entry once. os.Getenv, generated UUIDs, the decoding of JSON and the fate of a
--     write are arguments too.
--   int and int64 are numbers below 2^64 in two's complement, and additions wrap. Theorems that need
--     a counter or a version not to wrap say so.
--   An error is its sentinel; the text that a caller wraps round it is left out.
--   The loop of Next in StoreBackedEventStream is a list of rounds, one for each poll, and the loop
--     factory of a run may send any events and return any result. The retries of a request are
--     recursion on the attempts of the range, redirects on the ten requests that the client allows,
--     and the way up in the discovery of files on the names of the directory. No function takes fuel.
--   A float64 of money is the exact amount: in the prices a number of hundredths of a micro-dollar, in
--     the tracker a multiple of the smallest positive float64, and there the addition of two, which
--     rounds, is a parameter. A text is a sequence of characters: where the code cuts at a byte, the
--     cut keeps whole characters.
--   The slices and maps inside an agent's definition are values: that a clone shares them with its
--     source is not seen.
--   The methods of SessionStore are code outside: a parameter, with the hypothesis that GetEvents
--     without an error gives the events of the session log from the position on.
--   The disk, a shell, HTTP with its transport, the resolver and net.ParseIP, the SDKs of the
--     providers, the codecs of JSON, the regular expressions and the stores behind the tools for memory
--     and knowledge are records or functions that the definitions take.
--
-- Not modelled: data races (a read of a field is one step); harness/runner_registry.go, which chooses a
-- runner by its name; the interfaces of the agent package; of tools/core, core.go, which registers the
-- tools, ask_user.go and subagent.go, which answer with a constant text, and web_search.go, a request
-- and a walk through its HTML; the mode page of the knowledge graph tool, a tree built through pointers;
-- Categories and ToolsByCategory of the tools registry; the tables that describe the arguments of each
-- tool; the constructors of providers and VerifyAPIKey; FormatCost and NewTracker; and the fields of
-- AppConfig that the code only carries.
pub mod Config
pub mod Cost
pub mod Harness
pub mod Lite
pub mod Prelude
pub mod Providers
pub mod Sessions
pub mod Tools
