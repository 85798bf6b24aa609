-- ===== src/Lib.antt =====
-- Watermill, a Go library for message streams: messages that are settled by Ack or Nack, publishers and
-- subscribers, a router that runs handler functions behind middlewares, and components on top of them.
--
-- Prelude has the names and lemmas that all modules share: tests, lists, Go's maps as association
-- lists with one entry for a key, integers.
-- Go is what the program uses of its language: errors as terms of the calls that made them, panics,
-- `defer` and `recover` over an explicit state, channels that are only closed, contexts.
-- Message is message/message.go, messages.go and metadata.go: Message/Headers the metadata,
-- Message/Defs the struct and its constructors, Message/Ack the methods Ack and Nack, Message/Content
-- Equals and Copy; Message/Settlement and Message/Equality prove what they promise.
-- Runtime is the state that handlers share: the messages behind their pointers, the cancellations of
-- contexts, the counter of running handlers, and an arbitrary state `S` for all that lies outside.
-- PubSub is message/pubsub.go and message/decorator.go. A publisher, a subscriber and a handler
-- function are actions on that state, and so parameters of the model.
-- Router is message/router.go and message/router_context.go: Router/Defs the structs and the
-- registration (AddHandler, AddMiddleware, the decorators), Router/Handling the wrapping of a handler
-- function (handler.run), handleMessage, addHandlerContext and the readers of the context,
-- Router/Decorating and Router/Running the decorators, RunHandlers and Run up to where it waits.
-- Router/Lifecycle is the rest: Close with waitForHandlers and pubsub/sync/waitgroup.go, Run from where
-- it waits, watchAllHandlersStopped, handleClose, Handler.Stop and the goroutine of each handler, as
-- sections of code (Lifecycle/Defs) that interleave (Lifecycle/Steps), with the calls and the
-- subscribers' own closing as steps from outside.
-- Middleware is message/router/middleware: Middleware/Basic the short ones, Middleware/Correlation,
-- Middleware/Retry, Middleware/Poison (with IgnoreErrors, on which Middleware/Filters is) and
-- Middleware/Dedup the others.
-- GoChannel is pubsub/gochannel/pubsub.go: GoChannel/Defs the registry (Subscribe, Publish, Close and
-- the removal of a subscriber), GoChannel/Registry its states under every interleaving of the sections
-- that hold a lock, GoChannel/Delivering what Publish does when others run between its two sections,
-- GoChannel/Delivery, GoChannel/Copies and GoChannel/Redelivery the loop that sends one message to one
-- subscriber, with the consumer and the subscriber's Close as concurrent steps.
-- GoChannel/FanOut is pubsub/gochannel/fanout.go.
-- BulkRead is message/subscriber/read.go.
-- Components has components/forwarder (Forwarder, Forwarding), components/delay with the middleware
-- DelayOnError (Delaying, DelayedOnly), internal/publisher (RetryPublisher, Retrying),
-- components/requeuer (Requeuer) and components/fanin (FanIn, FanningIn).
-- Cqrs is components/cqrs: Cqrs/Defs the marshaler as an interface, JSONMarshaler, the handlers and
-- their context; Cqrs/Buses the command and event buses; Cqrs/CommandProcessor and Cqrs/AddingCommands,
-- Cqrs/EventProcessor and Cqrs/AddingEvents, and Cqrs/EventGroups the processors, which add handlers to
-- a router; Cqrs/Facade cqrs.go.
-- RequestReply is components/requestreply: RequestReply/Defs requestreply.go, the marshaler and the
-- command bus, RequestReply/Backend backend_pubsub.go and handler.go; RequestReply/Replies and
-- RequestReply/Notifying follow a reply on its way.
-- Examples has concrete instances and tests.
--
-- Loops over messages, handlers and middlewares recurse on the list; the loop of the retrying publisher
-- recurses on the attempts that are left, so every definition is total and no fuel is needed. The loop
-- that sends a message again after each Nack may go on for ever; it is a step relation. Durations are
-- integers of nanoseconds; where the code multiplies one, the 64 bits are written out.
--
-- Not modelled: logging and metrics; stack traces; mutexes, since a method is one step while it holds
-- its mutex, but for the sections of gochannel and of the router's life, which interleave; the
-- marshalers for Protocol Buffers; the timeout of a listener of request and reply; the Close of the
-- fan-out. JSON, clocks, checksums, decimal notation, the texts of errors and durations, random
-- numbers and third-party libraries (the loops of backoff and gobreaker among them) are parameters.
pub mod Prelude
pub mod Go
pub mod Message
pub mod Runtime
pub mod PubSub
pub mod Router
pub mod BulkRead
pub mod Middleware
pub mod GoChannel
pub mod Components
pub mod Cqrs
pub mod RequestReply
pub mod Examples
