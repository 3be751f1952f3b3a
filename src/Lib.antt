-- ===== src/Lib.antt =====
-- A model of Event Horizon, a toolkit for CQRS and event sourcing: what its packages do, written
-- from their source, and theorems about it.
--
-- The parts and their files. A command (Command, for command.go and command_check.go) goes through
-- middleware and the bus to the handler of its aggregate (CommandHandler, for commandhandler/bus,
-- commandhandler/aggregate, middleware.go, middleware/commandhandler/lock and validate). It appends
-- events to an aggregate (AggregateStore/Events/Base, for aggregatestore/events/aggregatebase.go).
-- The aggregate store (AggregateStore/Events, for aggregatestore/events/aggregatestore.go) saves
-- them through an event store and rebuilds an aggregate by applying the events that it loads, from
-- a snapshot on if there is one (AggregateStore/Events/Snapshots). EventStore has the interface of
-- eventstore.go with its contract as a record of laws; EventStore/Memory and
-- EventStore/Memory/Maintenance model eventstore/memory, and EventStore/Memory/Contract fills the
-- contract; EventStore/Recorder models eventstore/recorder; EventStore/Mongo models
-- eventstore/mongodb_v2, over a driver that is given by its calls and their laws
-- (EventStore/Mongo/Client): Building makes the documents, Saving has Save with both strategies for
-- the global position, Cursor the loads, Snapshots the snapshots, Options and Making the
-- constructor, and Commit what a transaction does to the collections; EventStore/MongoV1 models
-- eventstore/mongodb, with one document per aggregate. Compare is compare.go; Compare/Same says,
-- apart from the code, when two events are the same. Namespace, for namespace/repo.go,
-- namespace/eventstore.go and namespace/outbox.go, has one repository, event store or outbox per
-- namespace of the context, and Context is context.go with namespace/context.go. Scheduler, for
-- middleware/commandhandler/scheduler, keeps commands in a repository until their time comes.
-- EventBus, for eventbus/local/eventbus.go, sends events as bytes, which EventCodec, for
-- codec/json/event.go and codec/bson/event.go, writes and reads, to the listeners. Handlers then
-- see the events: the projector (Projector, for eventhandler/projector/eventhandler.go) keeps
-- entities in a repository, and the outbox (Outbox, for outbox/memory/outbox.go) keeps each event
-- until its handlers have had it; since the model notes no calls, that a handler has had it is
-- anything true of the world that its successful call brings about (Outbox/Effects). Repo has the
-- interface of repo.go with its contract; Repo/Memory models repo/memory/repo.go and fills it,
-- Repo/Cache models repo/cache/repo.go and Repo/Version repo/version/repo.go. Event, Matcher and
-- Registry are event.go, matcher.go and registry.go. Errors has the errors of all packages, Prelude
-- what every file shares, and Samples the values of the tests.
--
-- How the code is translated. A method that changes an object is a function from its state to a
-- result and the new state; a result is a value, an error or a panic, and what was written before
-- an error stays written. A mutex that is held for a whole method makes the method one step. Go's
-- maps are functions to Option; where the code ranges over a map, the order is a list that the
-- caller of the model picks. UUIDs, times and versions are natural numbers, uuid.Nil is 0; int
-- overflow is out of reach for versions, which count the events of one aggregate. The code that
-- applications write (event data, aggregates, projectors, entities) and that of other modules
-- (copier, JSON) are parameters; what is asked of them is a hypothesis, such as that a copy of
-- event data is equal to it. Contexts are reduced to what the modelled code reads of them.
-- Interfaces that a value may or may not implement are a Boolean or an Option of it.
--
-- Bounds. No recursion runs on fuel: the loops run over lists. The scheduler's queue and the
-- channels of the local bus have the capacities of the source, 100 and 1000. The wait loop of
-- repo/version/repo.go runs over a schedule, a list of what happens at each wait; it returns by the
-- first entry at which its context ends.
--
-- Not modelled: error texts and other printing; the maintenance of the MongoDB event stores, and
-- the repository and the outbox of MongoDB; the buses over Kafka, NATS, Redis and GCP, which call
-- client libraries; the codecs of commands; tracing, HTTP utilities, mocks and examples, which are
-- glue; the saga, the waiter and the asynchronous middleware. The endless loops of the outbox are
-- left to their single turns. The goroutines of the scheduler and the calls of its clients, Load
-- included, are the steps of a relation.
pub mod Prelude
pub mod Errors
pub mod Registry
pub mod Event
pub mod EventBus
pub mod EventCodec
pub mod Matcher
pub mod EventStore
pub mod AggregateStore
pub mod Repo
pub mod Projector
pub mod Outbox
pub mod Context
pub mod Command
pub mod Compare
pub mod CommandHandler
pub mod Namespace
pub mod Scheduler
pub mod Samples
