-- ===== src/Lib.antt =====
-- The services of the DT4MOB platform: the controller that keeps Hono's tenant and Ditto's
-- connections in step with the cluster's secrets, the certificate service that issues device
-- certificates, the garbage collector that deletes expired things, and the historical services, a
-- writer that stores Ditto's events and an API that serves them; and the script that sets up Keycloak.
--
-- Files and what they model, by paths from the repository's root:
--   Prelude and its children: shared names, Boolean tests on native numbers, list selection, texts,
--     dictionaries as association lists, and integers. Json: JSON values.
--   Swagger: services/dt4mob-historical-api/app/static/swagger-initializer.js (`onload`) and the page of
--     app/main.py that loads it (`custom_swagger_ui_html`). The bundle of Swagger UI is a parameter;
--     what the script reads of it and is not there is undefined.
--   Certificate: services/dt4mob-certificate-service. Config is config/config.go; Auth is auth/oidc.go,
--     each middleware a function of the request's context and of the handler behind it, and
--     Auth/Verifier its NewVerifier; Handler is handler/handler.go, with `issue_handler` for IssueHandler,
--     a Response for what huma sends, and int64 durations with their wrap; Startup is main.go and
--     k8s/client.go: the permitted roles, the path prefix (`root_handler`, `inner_path`), the CA pair over the events of the secret's watch
--     (`run_secrets`), and the API behind its middlewares (`serve_issue`). Service is `main` as a whole,
--     from the configuration to the two servers (`start`, `serve`, `serve_management`).
--   Controller: services/dt4mob-controller. State is state/state.go; Http is the network as a state
--     `World` that each exchange changes, and the outcome of a computation that may panic; Update is
--     update, updateHonoTenant, getConnection, updateConnection and updatePolicy of main.go, which share
--     the state and send their requests in order; Loop is the select loop of main, one `step` an event,
--     with the count of retries as Go's int of 64 bits;
--     Startup is `main` before its loop, with WaitService and GetPortByName of utils/utils.go and
--     NewState, the five watches that it begins, and `main` as a whole.
--   Historical: services/dt4mob-historical-api/app. Event is models/; Store is the SQLModel session and
--     the database behind it, a record of operations with SQL's laws (IsSql), and the queries as data;
--     Service is services/events_service.py, each method the query that it builds and what it makes of
--     the rows, or the error that escapes it; Router is routers/events.py, with `handle` for the routes behind their role checks.
--     Sample is a table in memory that has SQL's laws. Writer is services/dt4mob-historical-writer:
--     `parse_message` for a message of Ditto, and `consume` for the loop that fills the same table in
--     batches, over the rounds until the interrupt. Pipeline puts the writer and the API on one table. Bag
--     is a quotient, lists up to their order; Router/Abstract is the server that holds such a bag, which
--     Router/Refines relates to the routes; Router/Routes is the table of the decorators. Session is
--     `get_session` of both services with the methods that store events in it, Settings the connection's
--     URL and the consumer's configuration, Timescale the statements after the table's creation.
--   Collector: services/dt4mob-garbage-collector; it holds the paged search `get_things_expired_lt` of
--     src/services/ditto_api/ditto_api.py, over Ditto's search as a parameter, and the topic of the
--     deletion message of src/services/envelope_formatter/ditto_thing/DittoProtocol.py. Auth is the
--     cached token of src/services/auth/__init__.py, each call with the reply that it would get, and the
--     supervisor that renews the websocket's token (`token_refresh_loop`); Socket is the table
--     `_responses` of ditto_api.py, over the steps from one `await` to the next of send_ws_message,
--     send_control_message and `_listen_loop`; Sweep is the loop of main.py, over the search and the
--     exchange of a message, and Main is main.py as a whole, over a Ditto whose search lists the expired
--     things page by page (Search/Listing); Settings is src/settings/auth.py and ditto.py.
--   Keycloak: images/keycloak-config/setup.sh, as a sequence of commands (Tools), each of which may fail;
--     Sample is a cluster in memory that has the laws of Keeping and Effects.
-- The modules below these hold the theorems, named for what they are about, and the tests.
--
-- Parameters: the verification of tokens (Library, Oidc, `auth`), cryptography and PEM (Crypto,
-- Codec), the network (Net), Kubernetes' events, the commands of the script, the templates of connections, the database
-- (Store, and Orm for its sessions), JSONPath, Python's urllib, and the clock. What the proofs
-- need of them is a named hypothesis. The collector's search has as fuel one page more than its
-- limit, enough since each page but the last has a thing; the collector's main loop has a fuel of
-- rounds, and more of it than there are things is enough if each round leaves fewer, as it does
-- where Ditto deletes what it is told to. All else is structural recursion. The loops that never
-- end are run over a list: of events in the controller, of polls in the writer; a watch of pods is
-- the list of its events up to its end. Times of the historical API are natural numbers that grow
-- with the instant; the column `index` is left out.
--
-- Not modelled: the opening of the garbage collector's websocket, the construction of clients,
-- servers and database engines, the reading of settings from the environment, the minified Swagger
-- UI bundles, charts, dashboards and jsonnet descriptions. Logging is left out everywhere but in
-- Swagger.
pub mod Prelude
pub mod Json
pub mod Keycloak
pub mod Certificate
pub mod Controller
pub mod Historical
pub mod Swagger
pub mod Collector
