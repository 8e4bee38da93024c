-- ===== src/Lib.antt =====
-- core-shared: the Go packages that the services share, as definitions with their theorems.
--
-- A file models the package or the file of the repository that it names. `Base` has what all of
-- them share: Boolean tests, lists over the native numbers, Go's strings as lists of bytes (`Text`).
-- `Json` and `Http` are what the code uses of the standard library: the text that `json.Marshal`
-- writes, headers, contexts, the server's `ResponseWriter` (`Conn`, `server`) and handlers.
--
-- - Apperror: apperror/errors.go. `Error` is a value of Go's interface `error` that is not nil:
--   a plain error, one wrapped by `fmt.Errorf`, several joined by `errors.Join`, or an `*AppError`.
--   `v`, `b`, `s`, `new_coded`, `new`, `wrap` and the `err_…` functions are the factories, `as_app`
--   is `As`.
-- - Response: response/response.go. `json`, `ok`, `created`, `accepted`, `no_content`, `error` and
--   `error_multi` run on any writer; `to_json` is the envelope with its `omitempty` fields.
-- - Middleware: middleware/. A `Handler` works on any `Writer`, so that `Logging` can wrap the
--   writer (`StatusWriter`). `play` is the handler whose run makes given calls. `RequestId`,
--   `Logging` and `Recovery` are the middlewares of those files, `Chain` and `Correlation` put them
--   in a row, `Grpc` is grpc.go, `Cors` is cors.go, and `Timeout` is timeout.go as a step relation
--   over the handler's goroutine and the one that waits.
-- - Logger: logger/logger.go and logger/apperror_bridge.go: the logger in the context, where a logger
--   is the list of its attributes. `Slog` is what the handlers use of package `log/slog`, `Otel` is
--   logger/otel_handler.go, `Fanout` logger/fanout.go over any handlers of that interface, and
--   `Setup` the logger of `New`, which puts both together.
-- - Mongo: mongo/collection.go (`Collection`), mongo/client.go and mongo/health.go (`Client`). The
--   driver's answers are an argument of each call, and its calls are kept in a trace.
--   `Client.Goroutines` is `Connect` and `Close` of client.go as a step relation over any number of
--   goroutines, which keeps the calls of the driver in one order; `Client.connect` is the same call
--   undisturbed.
--   `Repository` is mongo/repository.go over a record of what the driver does to a store; a failed
--   connection is an argument of each operation, and `Repository.Connected` runs the operations on a
--   client of `Client`. `Dates` is mongo/datetime.go, with a child for the methods of each of its
--   types and `Registry` for mongo/registry.go; `ObjectId` is
--   mongo/objectid.go with the object ids of mongo/bsonutil.go, whose filters are in `Patterns`;
--   `Entity` is mongo/entity.go and mongo/fetchresult.go. `Bson` is what the codecs get.
-- - Calendar: what mongo/ uses of package `time`: dates in UTC, the three layouts and RFC 3339, what
--   `Format` writes and `ParseInLocation` reads, and `UnixMilli`; `Days` moves a date by days,
--   `Civil` is about the date of a day by its number.
-- - Client: client/http.go: the URL of a request (`Url`) and the requests (`Requests`), over a
--   record of what the network answers; requests and the use of bodies are kept in a trace.
--   `Dial` is client/grpc.go: `DialGRPC`, with the dial of the library as an argument.
--   `ServiceErrors` puts `GetJSON` and `Error` of response/response.go on the two ends of a request.
-- - Kafka: kafka/consumer.go: the loop of `Start`, driven by a list of what the reader and the
--   handler answer in each turn (`Consumer`); kafka/producer.go: `publish` (`Producer`);
--   kafka/config.go: the mechanism and TLS of a connection (`Config`); the two constructors and
--   `ParseMessage` are in `Construction`. `Delivery` is about runs of the consumer one behind the
--   other, each from the offset that the broker has stored.
-- - Audit: audit/: the event, what `fill` puts into its blank fields, and the emitters. `Trail` is
--   about what an emitter adds to the topic.
-- - Returns: the value and the error that a Go function returns.
-- - Camunda: camunda/client.go: which configurations become a client, and with what credentials;
--   `Publishing` is `PublishMessage`, `BasicAuth` the header of basic authentication, read back.
-- - Telemetry: telemetry/telemetry.go: what `Init` makes, undoes and hands out, as a trace.
-- - Redis: redis/client.go: `NewClient` and `Close` as a trace, the commands over a record of what the
--   library does to a database.
-- - Validator: validator/validator.go: the error that the findings of the library become.
--
-- The ids of `uuid`, times, stack traces and the driver are arguments of the definitions that
-- use them. HTTP statuses are natural numbers. The only fuel is that of `decimal`, which prints
-- numbers below 10 ^ 20; for these it is enough (`Json.Decimal`). JSON strings are escaped byte
-- by byte, which is Go's output for valid UTF-8 without U+2028 and U+2029. The Unicode tables
-- beyond ASCII are a parameter of `Mongo.Collection`. `strings.ToLower`, `EqualFold` and
-- `TrimSpace` are those of ASCII text. Parsing a time recurs on the layout and the text, and
-- needs no fuel; a zone has at most 24 hours and 60 minutes, as in Go.
--
-- Not modelled: methods that only pass a call to a third-party client, which are `Zeebe` of
-- camunda/client.go and the `Close` of kafka/ and camunda/, and those that only return a field
-- (`Time` of mongo/datetime.go, `CollectionName` of mongo/repository.go); `NewRegistry` of
-- mongo/registry.go, which registers the two functions of the codec; the requests that the
-- third-party package answers for middleware/cors.go; the log record "mongo connected" of
-- mongo/client.go; and `Clone` of a record in logger/fanout.go,
-- since values share no storage here. Third-party code itself is an argument.
pub mod Base
pub mod Calendar
pub mod Json
pub mod Apperror
pub mod Returns
pub mod Http
pub mod Response
pub mod Logger
pub mod Middleware
pub mod Mongo
pub mod Client
pub mod Camunda
pub mod Kafka
pub mod Audit
pub mod Telemetry
pub mod Redis
pub mod Validator
pub mod Tests
