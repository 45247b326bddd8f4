-- ===== src/Lib.antt =====
-- kabanero-events: a model of the event processing of the Kabanero operator. A webhook event
-- arrives as a message; the processor finds the triggers of its event source, evaluates their
-- bodies with CEL (github.com/google/cel-go), and the functions that the expressions call send
-- events to destinations and create resources in the cluster.
--
-- The parts, and the code that each is about:
--
--   Go        what the code takes from Go: maps as association lists (Go/Assoc), the values
--             behind `interface{}` (Go/Value), and code with errors, panics, a heap of maps and
--             a trace of effects (Go/Exec). Go/Keeps and Go/Ends hold the rules for what a `do`
--             block keeps, for its coming to an end and for what it returns (Go/Yields).
--   Label     pkg/utils/kube_util.go: `ToDomainName`, `ToLabelName`, `ToLabel`.
--   Messages  pkg/messages: `Service` with `NewService`, `Register`, `GetNode`, `GetProvider`
--             and `Send`, and the NATS and REST providers; what they receive is in
--             Messages/Receive.
--   Listener  pkg/endpoints/listener.go: the handler of webhooks, which sends each as a message.
--   FilePath  pkg/utils/webhook_util.go: `MergePathWithErrorCheck`.
--   Archive   pkg/utils/webhook_util.go: downloads and their checksums, and the extraction of
--             trigger archives.
--   Kabanero  pkg/utils/kabanero_util.go: the namespace, the trigger files that a Kabanero
--             definition names, and the secret for a repository.
--   GitHub    pkg/utils/github_util.go: the repository of a webhook message, and YAML files read
--             from it.
--   Timestamp pkg/trigger/trigger.go: `GetTimestamp`; goroutines that call it together are in
--             Timestamp/Mutex.
--   Resource  pkg/trigger/trigger.go: `createResource`, `setJobID`, `kindToPlural` and the
--             reading of a resource's names.
--   Trigger   pkg/trigger/trigger.go: the keywords (Trigger/Keyword), trigger definitions
--             (Trigger/Definition), CEL variables (Trigger/Variable), trigger bodies
--             (Trigger/Eval), values between Go and CEL (Trigger/Convert), the functions that
--             expressions call (Trigger/Function and Trigger/Filter, and Trigger/Library for text,
--             time, configuration and files, with their declarations in Trigger/Function/Overloads),
--             `ProcessMessage` (Trigger/Process), and the listeners that feed it
--             (Trigger/Listeners).
--   Command   cmd/kabanero-events/kabanero-events.go: `main`, which puts these parts together.
--   Debug     pkg/utils/debug_util.go: the lines that are logged of events and objects.
--   Sample    concrete surroundings for the tests.
--
-- A method of `Processor` becomes a function in snake case of the same name, over the engine, the
-- surroundings and the trigger definition that it reads. `map[string]interface{}` is an address in
-- the heap, since the program writes to it through several names; the decoded YAML is never
-- written and is a value. What the process does outside (POST, publish, flush, subscribe, download,
-- create a file, a directory or a resource) is one entry of the trace each; the answer to it is a
-- parameter. The package variables `kabaneroNamespace` and `lastTime` are fields of the world, and so
-- are the contents of the files that an extraction writes.
--
-- Parameters: cel-go (Trigger/Engine), the NATS and HTTP clients, go-github, the cluster with its
-- decoder, the Kubernetes clients, files and globbing, gzip, tar and sha256, the clock, YAML, JSON and
-- template output, lower case outside ASCII. What a reader of an archive gives, while its own
-- extraction may overwrite the archive, is a parameter too.
--
-- Fuel: `eval_array` and `eval_case` take one unit for each level of nesting, and
-- `eval_array_object` gives them the nesting of the body. `functions` takes one for each call
-- within a call, which nothing bounds in the code; it is an argument of `process_message`.
-- `collapse` gets the length of its string, which each round makes shorter.
-- `get_event_definition` takes one for each of its calls of itself, and `wait` one for each reading of
-- the clock.
--
-- Numbers are natural numbers with the wrap-around written out where the code multiplies
-- (`client_timeout`); an index of the code that may be -1 is an option.
--
-- Goroutines: `GetTimestamp` is a step relation at the grain of accesses to the mutex and to
-- `lastTime` (Timestamp/Mutex); everywhere else one goroutine runs.
--
-- Not modelled: what the listeners do to each other, but for `GetTimestamp`; the HTTP server; that the
-- map which `YAMLToMap` gives for bytes without one is nil, and not an empty map;
-- `shallowCopy`, which nothing calls; the printing of stacks at an interrupt, and logging but for
-- Debug. Text of errors is left out: an error is a constructor for the place that makes it. `range`
-- over a Go map goes in the order of the association list. Permission bits of files are left out.
pub mod Prelude
pub mod Go
pub mod Label
pub mod Messages
pub mod FilePath
pub mod Resource
pub mod Trigger
pub mod Sample
pub mod Listener
pub mod Archive
pub mod Kabanero
pub mod GitHub
pub mod Timestamp
pub mod Command
pub mod Debug
