-- ===== src/Lib.antt =====
-- The Kanto Update Manager: a device agent that applies a desired state of the device by driving the
-- update agents of its domains (containers, self-update, ...) through identification, download, update,
-- activation and cleanup, and reports their progress.
--
-- The parts, the files that model them, and the code they follow:
--   * Types: the payloads of api/types. Types.Split has SplitPerDomains and GetBaselinesForDomain.
--   * Util: api/util/util.go; Util.Keys has maps with distinct keys.  Logger: logger/logger.go.
--   * Config, for config: the record that the orchestration reads; Agents has prepareAgentsConfig and the
--     list of domains, Flags the flags with the environment, Binding the variables that they set, Loading has
--     LoadConfig and parseFlags. Preparation is about the agents that there are in the end, and
--     Loading.Precedence about where each value comes from.
--   * Orchestration, for updatem/orchestration. Operation is `updateOperation`; Session is an active
--     operation with the configuration and the calls made so far; Feedback has the table
--     `statusHandlers` (its children Identification, Phases and Completion have the handlers) and
--     HandleDesiredStateFeedbackEvent; Signals has waitSignal and waitCommandSignal; Apply has the
--     main loop `apply`, and Apply of the orchestrator; Consent has getOwnerConsent and
--     handleCommandSignal, Consent.Commands (with Consent.Orders) what they tell the agents; Inventories
--     has toFullInventory; Manager is `aggregatedUpdateManager`; Reboot is reboot_linux.go and
--     reboot_windows.go. Feedback.Lifecycle and Feedback.Changes follow the status of a domain
--     over a whole operation. System has the main loop, the handlers of the commands, the agents and
--     the owner as goroutines that take steps in any order; System.Simulation ties it to `apply`, and
--     System.Outcome puts together the update in which every agent succeeds, from Orders (the statuses
--     while the domains report), Beginning (the new operation), Success (one report;
--     Finishing in the last phase), Journey (one phase), Granting (a handler and its consent), Completion
--     (the command after a phase) and Stages (the five phases). Inventories.Order and Manager.Order
--     compare the orders in which maps are read and agents answer.
--   * DomainManager, for updatem/domain: Requests has Apply, Command and the feedback; Requests.Calls
--     sequences of them; State has the reported current state and Get, State.Waiting the two together;
--     Watching has the construction of the managers of all domains, WatchEvents and Dispose.
--   * Agent, for api/agent: the two notifiers with their timers, the callbacks of the agent, and in
--     Lifecycle its start, stop and requests, with cmd/update-manager/app/launch.go.
--   * Things, for things/update_manager_feature.go: Feature has the feature and its messages, Laws the
--     sequences of its calls.
--   * Mqtt, for the clients in mqtt: Clients has the envelopes of api/types, the topics, the sends and the handlers of messages;
--     Laws relates the clients of the two ends; Subscriber has Start, Stop, the subscriptions and the
--     connection, Sessions puts a client beside the broker; Opening has util/tls/tls_config.go and
--     the constructors of the clients with a connection of their own; Edge is update_agent_things_client.go
--     with owner_consent_things_client.go, on top of Things.Feature, and Edge.Switching what it keeps.
--   * Startup: main and initUpdateManager of cmd/update-manager/main.go, and the constructors that it calls.
--   * Examples: runs at concrete inputs.
--
-- How they interact: Manager calls the orchestrator, which calls the domain managers with the split
-- desired state and the commands; the agents' feedback comes back through Requests to Feedback, whose
-- handlers signal the main loop; the orchestrator's own feedback goes to the agent's callbacks.
--
-- How state and operations correspond to the code:
--   * A Go map is an association list, and the order of the list is the order of `range`. A nil slice
--     and an empty one are one list. A status, command or type outside the named constants is `other`.
--   * A channel of capacity 1 is its buffer, an Option Bool; a send to a full buffer is the outcome
--     `blocks`, a nil dereference is `panics`. A send on a
--     nil channel `blocks`, too. The locks make each call atomic; the agent's final feedback, which has no lock, is
--     two steps, between which the timer may fire.
--   * Which ready case a `select` takes, what the other goroutines did before a wait ends, and what
--     agents, clients, time.ParseDuration, fmt.Errorf with a text as its format, and
--     reflect.DeepEqual give are arguments.
--   * Calls on callbacks, agents and clients are effects, recorded newest first. Logs are dropped, but for Logger.
--   * There is no fuel: the main loop consumes a list of turns, one for each wait, and `none` is a
--     loop that still waits; Apply.Progress shows how many turns are enough.
--   * In System an event of an agent and the run of a command's handler are one step each, as the source
--     holds operationLock in both; a step of the main loop is one wait.
--
-- Not modelled: the writers of the log, which are libraries; what os, json, flag, x509
-- and crypto/tls do, which come as arguments; null entries inside the arrays of a message and in the map of
-- agents; a nil event callback while an operation runs.
mod Base
pub mod Types
pub mod Util
pub mod Config
pub mod Orchestration
pub mod Agent
pub mod DomainManager
pub mod Logger
pub mod Startup
pub mod Things
pub mod Mqtt
mod Examples
