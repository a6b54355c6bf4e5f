-- ===== src/Lib.antt =====
-- A service that receives orders from Kafka, stores them in Postgres, keeps the last used ones in
-- memory, and serves them over HTTP (order_service/). This library models its handwritten core
-- and the generated package of its HTTP API (internal/api).
--
-- How the parts interact: the receiving loop (internal/service/order_receiver_service.go) takes a
-- message from the Kafka receiver (pkg/pkgports/adapters/receiver/kafka.go), validates its order
-- (internal/validators/validate_order.go) and lets a goroutine save it by `OrderService.SaveOrder`
-- (internal/service/order_service.go), which stores it (internal/ports/adapters/storage/postgres.go)
-- and has another goroutine cache it (pkg/pkgports/adapters/cache/lru/in_memory.go, whose keys stand
-- in the list of pkg/linkedlist/list.go). A failed save is tried again, or the message is given up. A
-- request passes the router, the decoding of its id and the middleware of the generated server, and
-- its handler (internal/handlers/httphandlers/handler.go) asks `OrderService.GetOrder`, which looks
-- into the cache and then into the storage; the server writes the answer as JSON, which the generated
-- client decodes and validates.
--
-- The files, with the code they model under order_service/:
--   Heap, LinkedList   pkg/linkedlist/list.go. Nodes stand at addresses in a memory, a method is a
--                      command on it, `nil` dereferences panic. LinkedList/Spec is what each method
--                      does to a sequence.
--   Lru                pkg/pkgports/adapters/cache/lru/in_memory.go over LinkedList. Lru/Items is the
--                      cache as its entries in order of use, Lru/History as the first entries
--                      of the history of uses.
--   Models             internal/models/entities.go.
--   Validators         internal/validators/validate_order.go, Validators/Rules docs/validation.md.
--   Receiver           pkg/pkgports/adapters/receiver/kafka.go as functions, and Receiver/Loop the
--                      loop of internal/service/order_receiver_service.go with its goroutines as a step
--                      relation: the loop and each goroutine step in any order, and `Consume` is cut
--                      between the receive and the send on the retry channel. Receiver/Tried counts the
--                      ends of goroutines in a run.
--   Shutdown           how that loop and `StopReceivingOrders` end after an interrupt.
--   Storage            internal/ports/adapters/storage/postgres.go: SaveOrder over a `Driver`, the
--                      texts of saveItems (Storage/Items) and what is read in them
--                      (Storage/Rows, Storage/Quotes), the queries (Storage/Query) and the
--                      destinations of their columns (Storage/Scan), what their joins mean on the rows of the tables
--                      (Storage/Joins), and the reads as functions of the answers (Storage/Read).
--   Service            internal/service/order_service.go over the two ports of
--                      internal/ports/ports.go; Service/Laws says what it relies on of the cache, and
--                      gives it the LRU cache; Service/Turns is the step relation of calls and
--                      goroutines, with what the storage gave or took in a run.
--   Handler            internal/handlers/httphandlers/handler.go with the response types of
--                      internal/api/oas_schemas_gen.go.
--   Api                the generated package internal/api. Api/Jx and Api/Ogen say what it calls of the
--                      libraries jx and ogen. Api/Required and Api/Object are what all `Decode`
--                      functions of oas_json_gen.go have in common, the bits of the required fields
--                      and the reading of an object, and Api/Codec the table of each type, with its
--                      `Encode`. Api/Schemas is oas_schemas_gen.go, Api/Validate
--                      oas_validators_gen.go, Api/Params oas_parameters_gen.go, Api/Router
--                      oas_router_gen.go, Api/Responses oas_response_encoders_gen.go and
--                      oas_response_decoders_gen.go, Api/Config oas_cfg_gen.go, and Api/Requests
--                      oas_handlers_gen.go around the handler, with Api/LoggingMiddleware for
--                      internal/handlers/httphandlers/middlewares.go; Api/Client is oas_client_gen.go.
--   Logger             pkg/logger/logger.go: the contexts with a logger, and its lines.
--   Start              cmd/main.go up to where the server and the receiver run: Start/Ends follows it to
--                      the service that it starts, Start/Returns says when it gets there.
--   Simulator          simulator_service/handler.go, beside order_service/.
--   Topic              the creation of a topic in pkg/kafka/kafka.go.
--   Tests              runs on concrete inputs, and each result at one.
--   Base               what they share: tests, lists, integers, Go strings as lists of code points,
--                      and commands with errors and panics.
--
-- Parameters: what the Kafka client reads and unmarshals, whether net/mail.ParseAddress accepts an
-- address, the time, the database driver with the laws of a transaction, what the queries and the
-- Kafka cluster answer, and for the service any storage. For the API: the values that jx reads and writes,
-- the rules, path functions and media types of ogen and the standard library, the middleware chain,
-- what the writing of a response returns, the loggers that zap makes, and the network.
--
-- Numbers: an `int` is an integer with no bound; lengths, limits and tries count things and stay
-- far below 2^63. A `uint8` of the JSON codecs is the list of its eight bits. The only fuel is that of
-- `digits`, 20 rounds for the decimal digits of an `int` of 64 bits, which has no more than 19
-- (Storage/Digits reads the number back from them). All loops are recursion on the length that the
-- source counts to.
--
-- Simplified: a method that holds its mutex is one step, and so is a `Get` of the cache, although
-- `Get`s share the read lock and move the list, and `GetIndex` takes no lock of it. The goroutines
-- that log a dead letter are run at once. The builder of queries is taken to succeed; the SELECT
-- of an order is kept as its tables, joins and columns, the others as their columns only. `errgroup`
-- answers with one error, whichever goroutine failed first.
--
-- An object that jx breaks off with an error has the fields before it. A receiver of the generated
-- methods is a pointer that is not nil. Tracing and metrics are left out.
--
-- Not modelled: the setters of single fields and the options of the client in internal/api, the
-- reading of the configuration, the connections to Kafka and Postgres (but for the creation of a topic
-- and the answers that main gets), the runner of the HTTP server and the shutdown of main (but for the
-- receiving loop), the rest of the simulator and the end-to-end tests: calls of libraries, or tools.
pub mod Base
pub mod Heap
pub mod LinkedList
pub mod Lru
pub mod Models
pub mod Validators
pub mod Receiver
pub mod Shutdown
pub mod Storage
pub mod Api
pub mod Handler
pub mod Service
pub mod Logger
pub mod Start
pub mod Simulator
pub mod Topic
pub mod Tests
