-- ===== src/Lib.antt =====
-- Seckill Mall: a shop of services that share no database. The Order Service drives the Inventory
-- Service through remote calls; both tell the other services what happened by events, which go
-- through an outbox and are checked by the shared contracts.
--
-- Parts and files:
--   Base         tests, Go's int32 and int64 with their wrap-around, maps, texts, results and the
--                actions of a method on a state.
--   Contracts    shared/contracts/events.go and payloads.go: Events (EventEnvelope, Validate,
--                NewEventEnvelope, InboxKey), Payloads (the payload structs as JSON objects,
--                ValidateEventPayload), Decode (json.Unmarshal of four of them), Produced.
--   Inventory    services/inventory/internal/app: Model (model.go, repository.go, the validators),
--                Ledger and Store (memory_store.go: Reserve, Confirm, Release, Restock, AdmitSeckill),
--                Handlers (events.go, memory_stream.go). Calls has the calls of the interface Store and
--                their histories, Moves the step relation that they implement, Limits what Reserve does
--                with the limit of purchases. Server has the error codes of server.go.
--   Order        services/order/internal/app: Model (model.go), Repository (memory_repository.go),
--                World (the interface of the inventory client, and the clock), Create, Lifecycle and
--                Retry (service.go), Handlers (events.go), Clients (clients.go, connected to the
--                inventory's server), Server (ConfirmPayment and the errors of grpc_server.go).
--                Steps is the step relation of the repository, Requests the histories of requests.
--   Messaging    shared/platform/messaging: Inbox and Outbox (memory_store.go, with the envelope of
--                types.go), Worker (publishOutboxBatch of worker.go), Delays (RetryDelay of types.go).
--                Delivery has the histories of calls of the outbox, Keys the keys of its map, Publishing
--                what the publishing of one event does, Sending what the loop does with one of its
--                events, Batches what a batch does.
--   Platform     shared/platform/internalcall/auth.go: InternalCall (the signed identity of a call), and
--                Grpc and Serving, the errors and the answers that the gRPC servers share.
--   Payment      services/payment/internal/app: Model, Repository (memory_repository.go), Service
--                (service.go), Server (server.go, and the errors of order_client.go), OrderCalls
--                (ConfirmPayment of order_client.go, connected to the Order Service). Requests has the
--                histories of requests.
--   Fulfillment  services/fulfillment/internal/app: Model, Repository, Service and Server as in Payment.
--                Serving has the histories of requests.
--   Cart         services/cart/internal/app: Model, Repository, Service, Server. Keeping has the
--                histories of requests.
--   Catalog      services/catalog/internal/app: Model, Repository, Server. Orders is about the order in
--                which `range` visits the products.
--
-- The parts meet in their clients: the order client of Payment and of Fulfillment, the catalog client
-- of Cart and the inventory client of Order. They are records of calls, or a function, on a state of
-- their own, which every proof takes as parameters; the inventory client is also filled by the
-- inventory's server (Order.Clients), and the confirmations of the payment's client by the order's
-- server (Payment.OrderCalls). The servers of Payment, Fulfillment and Cart check a caller by
-- Platform.InternalCall before they call their service.
--
-- Conventions. A Go map is an association list, whose order stands for the order of `range`, or a
-- function where a missing key reads the zero value. A payload is the JSON value that it encodes, or
-- no value where its bytes are no JSON. A duration whose doubling is modelled is an int64. A string is a text of code points, and `byte_len`
-- counts the bytes of its UTF-8; where compactError and truncateError cut a text at 255 bytes, the part
-- of a character that is left over is dropped. A time is a number of ticks. An operation that holds the mutex
-- from its first read to its last write is one step, so that a history of concurrent requests is a
-- sequence of calls, each with its own time. The event streams and sinks are a state and a function `append`, of which nothing is assumed; so are the
-- clients, the publisher, the source of random identifiers, and the clock, which is read off their
-- state. The keyed hash of a signature is a function of a key and a text. All loops run over lists or
-- count down, so that no fuel is needed.
--
-- Not modelled: the stores over Redis, MySQL and RabbitMQ (text for another program, or input and
-- output), the identity service and the gateway, the event handlers of Payment and Fulfillment, which
-- change nothing, the deadlines of remote calls, generated code, configuration and start-up.
pub mod Base
pub mod Contracts
pub mod Inventory
pub mod Order
pub mod Messaging
pub mod Platform
pub mod Payment
pub mod Fulfillment
pub mod Cart
pub mod Catalog
