-- ===== src/Lib.antt =====
-- A model of claimpipe, an event-sourced pipeline for insurance claims (src/claimpipe).
--
-- The ingestion API authenticates a customer, validates a submission against the tenant's claim
-- type, appends CLAIM_RECEIVED to the event store and starts a workflow, which runs the stages of
-- the claim type by activities. Every change of a claim is an event; the store projects the events
-- to the claim's read model and keeps them in an outbox, which the relay publishes to a bus. The
-- notifier consumes CLAIM_PERSISTED from the bus, tells the customer by a signed webhook, and
-- appends the outcome.
--
-- Which file models which part:
--   Prelude          dicts as association lists, lists, tests, integers over the native numbers
--   Value            Python's dynamic values with ==, truth and float(); doubles as exact multiples
--                    of 2 ^ -1074 with NaN and the infinities
--   Domain           domain/models.py, domain/events.py, and the exceptions as an Error type
--   Projection       projection.py: ALLOWED is `allowed`, _EVENT_STATUS `event_status`, `project`
--   EventStore       eventstore.py, InMemoryEventStore: its dicts are the fields of `EventStore`;
--                    `append` keeps what was written before a raise
--   Postgres         eventstore.py, PostgresEventStore, over the tables of migrations/: Rows are the
--                    rows and Queries the queries, Append is the transaction; an Interleaving is a
--                    sequence of statements of several transactions
--   Relay            relay.py and adapters/bus.py: `run_once`, and `run` up to its first idle round
--   Adjudication     adjudication.py: `holds` is Condition.matches, `adjudicate`, default_rulesets
--   RefData          refdata.py, enrich_facts
--   ClaimTypes       claimtypes.py: validate_pipeline, validate_attributes, the registry and its seed
--   Tenancy          tenancy.py
--   Llm, Agent       llm.py and agent.py; a model is a function that may raise. Llm/Clients has the
--                    mock and the Anthropic client of adapters/model_client.py
--   ObjectStore      adapters/object_store.py, InMemoryObjectStore; ObjectStore/S3 is S3ObjectStore
--   Temporal         temporal/activities.py and temporal/workflows.py: Activities, and Workflow with
--                    `receive` for the signals, `run_stage` and `run`; Retry is the engine's retry of
--                    an activity, at most 5 attempts, under a schedule of attempts that are lost,
--                    unacknowledged or arrive. Stages is the interface by which a proof follows the
--                    stages of a pipeline, with the pairings Pipelines (from Keeping's invariants) and
--                    Progress (from Arriving and Answering). Worker is what temporal/worker.py wires
--   Notifier         notifier.py: `deliver` is the loop of attempts, `notify` is _notify; Consumer is
--                    the loop of main over the messages
--   Customers        customers.py; Customers/File is load_customers_file
--   Settings         config.py, the mock of adapters/ocr.py, and the roles of __main__.py
--   Output           adapters/output.py
--   Intake           adapters/intake.py: `normalize_fnol`, `normalize_x12`; RoundTrip writes an interchange
--   Api              api/app.py and api/schemas.py: one function for each endpoint; `submit` is
--                    _submit, `visible_claim` is _visible_claim; Main is what api/main.py starts
--   Examples         each result with hypotheses at a concrete input, and tests
--
-- State is passed explicitly. An exception is an `err` result beside the state that was reached. Ids
-- and times come from the environment as `Stamp`s. Arguments of the model are SHA-256, HMAC,
-- json.loads and json.dumps, float() of a text, str() of what is no text, the OCR service, the
-- provider's API, the S3 client, the webhook, the bus, and Temporal's answers to a start or a signal.
--
-- The tables of Postgres are lists of rows, in the order of the bigserial id where there is one. What
-- the driver, the column types and pydantic's JSON make of a value are the argument `Columns`, with
-- the hypothesis `IsLossless` where a result needs it. Transactions are READ COMMITTED: what each
-- reads is the committed state at its statement, its writes take place at its commit, when the
-- constraints are checked, and a raise rolls it back. An outbox row takes its place at the commit,
-- where the source draws its id at the INSERT. Dicts of JSON are equal as Python's are: JSONB keeps
-- neither the order of keys nor whether a number was an int.
--
-- Within a workflow no other program writes to its claim: the notifier, which reacts to
-- CLAIM_PERSISTED, is not interleaved with the attempts of the last activity (one behind
-- CLAIM_NOTIFIED would be refused). A put of the object store does not raise but as a
-- lost attempt. Predictions are checked by pydantic where they are made; reading them checks them
-- again in the source, and passes.
--
-- Bounds: the relay's `run` has one unit of fuel for each round, and one more than the unpublished
-- events is enough; activities have the 5 attempts of the retry policy; the rounding of an integer to
-- a double looks at 971 binary digits past the first 53, all that a finite double has.
--
-- Not modelled: the HTTP client and Kafka's, the reading of the environment, the connections that the
-- entry points open, logging and tracing, /portal, /healthz, and the smoke test, which drives a
-- deployed system: they are connections, constants or wiring.
pub mod Prelude
pub mod Value
pub mod Domain
pub mod Projection
pub mod EventStore
pub mod Postgres
pub mod Relay
pub mod Adjudication
pub mod RefData
pub mod ClaimTypes
pub mod Tenancy
pub mod Llm
pub mod Settings
pub mod Agent
pub mod ObjectStore
pub mod Temporal
pub mod Notifier
pub mod Customers
pub mod Output
pub mod Intake
pub mod Api
pub mod Examples
