-- ===== src/Lib.antt =====
-- Verification of the TrustShield backend: the Python services under backend/app.
--
-- The program scores conversations and entities for fraud, meters its callers, keeps an audit
-- log and stores personal data encrypted. A request passes the billing gate, is scored by the
-- risk scorer from the registry's weights, and the action engine decides an intervention;
-- signals are normalised into events that may trigger a proactive intervention; every
-- administrative action is appended to the audit log; columns with personal data go through the
-- vault; models are promoted behind a guard; users are provisioned from single sign-on or log in
-- with a password, present access tokens, rotate refresh tokens, and see the rows of the tenant
-- in whose context their request runs. A tenant's identity system provisions users, its
-- subscribers are told of events by signed webhooks, entities and their links are stored in a graph,
-- and the tenants of a region can be moved to another.
--
-- Files and what they model (paths from the root of the repository, NAME/ for the child modules):
--   Base.antt, Base/        lists, texts, signed integers, and the interface of floats
--   Audit.antt              services/audit/audit_service.py: `write_audit` and `verify_chain` over the
--                           rows of models/audit.py
--   Audit/Chain, Audit/Writes   what verification decides; logs that are written by `write_audit`
--   Audit/Job               services/audit/verify_job.py: the nightly run and acknowledgments
--   Billing.antt            models/billing.py and services/billing/plan_service.py
--   Billing/Usage           services/billing/usage_service.py: `record_usage`, `get_usage`, `check_quota`
--   Billing/Ledger, Billing/Quota   the counts of the ledger; the decision of the quota
--   Billing/Limits          the limits shown to a caller, `get_effective_limits`
--   Billing/Gate            middleware/billing.py: the dependency of an endpoint
--   Billing/Flow            the interleavings of its checks with the recording tasks, as a step relation
--   Vault.antt              services/security/pii_vault.py and kms_provider.py
--   Vault/Envelope, Vault/RoundTrip, Vault/Legacy   the envelope's format; encryption and decryption;
--                           the old format
--   Risk.antt               services/nlp/risk_scorer.py with schemas/risk.py, entity.py and analyze.py
--   Risk/Scores, Risk/Engine    the scorer; services/intervention/action_engine.py
--   Risk/Emission           `evaluate_intervention` and the events of services/intel/ingest_normalizer.py
--   Risk/Payloads, Risk/Readable   the payloads of services/intel/ingest_normalizer.py, with values that
--                           are missing or unexpected; those that it can read
--   Risk/Intake, Risk/Intake/Bounds   its normalizers; the events that they make
--   Reputation.antt, Reputation/Local   services/intel/reputation_service.py: the score of one cell
--   Reputation/Federation   services/intel/cell_federation.py and `compute_reputation`, which call each other
--   Access.antt             services/auth/provisioning.py and permissions.py
--   Access/Linking, Access/Provisioning, Access/Roles   one sign-on; repeated sign-ons; roles
--   Tokens.antt             models/refresh_token.py and session.py, the claims of tokens, and what a
--                           request ends in
--   Sessions.antt           services/auth/jwt_service.py, `get_current_user` of auth.py and login, refresh and
--                           logout of api/v1/auth.py
--   Sessions/Lifetime, Sessions/Rotation, Sessions/Answers, Sessions/Families   from login to logout;
--                           one refresh and the next; what a refresh answers; families of refresh tokens
--   Sessions/Permissions, Sessions/Sharing   the permission checks of auth.py, and the sets they share
--   Sessions/Toy            a concrete token format, for the examples
--   Scim.antt               api/v1/scim.py: provisioning of users by a tenant's identity system
--   Scim/Updates, Scim/Deactivation, Scim/Replacement, Scim/Isolation, Scim/Pages   the row of a user who
--                           is changed; the sessions of one who is deactivated; a `PUT`; the rows that a
--                           request changes; pages
--   Webhooks.antt           services/integration/webhook_dispatcher.py
--   Webhooks/Signatures, Webhooks/Delivery, Webhooks/Timing   headers that are accepted; attempts for
--                           one subscription; instants and signatures of a whole dispatch
--   GraphStore.antt         services/graph/entity_graph.py: its writes, their backlog, the cache of risks
--   GraphStore/Backlog, GraphStore/Nodes, GraphStore/Runs   what a drain makes of the backlog; what each
--                           operation keeps; runs, as a step relation
--   GraphStore/Views, GraphStore/Views/Shape   the two views for display
--   Graph.antt              `propagate_belief` of services/graph/risk_propagation.py, `_simple_clustering` and
--                           the ring levels of services/graph/ring_detection.py
--   Graph/Search, Graph/Belief, Graph/Levels, Graph/Nearness   the turns of the search and a rule for its
--                           invariants; its bounds; its levels; positive answers
--   Graph/Clusters, Graph/Partition, Graph/Components   the turns of the clustering; its result;
--                           neighbours of members
--   Promotion.antt          services/ml/promotion.py, shadow.py and services/nlp/model_registry.py
--   Promotion/Guards        the guard and the outcome of a promotion
--   Tenants.antt, Tenants/Offboarding   `offboard_tenant` of services/tenant/lifecycle.py over the tables of
--                           models/ that carry a tenant; whether foreign keys are enforced is an argument
--   Tenants/Context         middleware/tenant_context.py and services/tenant/query_filter.py
--   Tenants/Scoping, Tenants/Isolation   the rows and the users that a request meets
--   Evacuation.antt, Evacuation/Accounting   services/tenant/evacuation.py: `evacuate_cell` and its summary
--   Workers.antt, Workers/Locks   workers/idempotency.py: the locks of scheduled tasks
--   Each Examples.antt, Tenants/Views   the theorems at concrete inputs
-- (services/, models/, workers/, middleware/, schemas/, api/ and auth.py are those of backend/app.)
--
-- A table is the list of its rows, a request to the database a function of the tables, and a
-- call that changes tables returns them. An operation that raises returns `none`; where the
-- source catches the error, what it then returns is written out. A query without an order
-- answers in the table's order. Clock readings, random bytes and new keys are arguments. The
-- numbers of the program that can be negative are `ℤ`, the others the native numbers; Python's
-- integers do not overflow. Loops over lists are recursions on them; the two worklist loops of
-- Graph take a number of turns as fuel, for which the number of edges gives the bound, and the drain of
-- GraphStore one for which the length of the backlog is enough while Neo4j answers. The calls of
-- Reputation/Federation are counted by the pairs that still fit on the stack. In Billing/Flow the
-- number of calls in flight at once is bounded by a parameter, and in Webhooks/Timing the seconds of an
-- attempt are; the theorems hold for each bound.
--
-- Parameters stand for what the sources only call: the SHA-256 hash (without collisions where a
-- theorem says so), the format of instants and numbers, floats (Base/Float states the laws of
-- IEEE 754 used, for values other than NaN), AES-GCM, PBKDF2, base64 and UTF-8 (`CryptoLaws`),
-- the answers of KMS, the servers of webhooks, of other cells and of the graph (`Network`, `Cells`,
-- `Servers`), the HMAC of webhooks (`WebhookLaws`), the signing and decoding of tokens
-- (`SessionLaws`), the decoding of JSON.
-- Each group of laws has an instance in an Examples file, in Sessions/Toy or in Base/Whole.
--
-- Not modelled: HTTP endpoints other than those named, model inference and training, the clients
-- of payment, mail, speech and language services, the queries of the graph database other than those
-- named and the tasks around it, the front end and the SDKs; a database that raises in the middle of a call; of the vault
-- `tokenize` and the functions on dictionaries; of the event pipeline the
-- sinks that publish to other topics.
pub mod Base
pub mod Access
pub mod Audit
pub mod Billing
pub mod Vault
pub mod Promotion
pub mod Reputation
pub mod Risk
pub mod Evacuation
pub mod Graph
pub mod GraphStore
pub mod Scim
pub mod Sessions
pub mod Webhooks
pub mod Workers
pub mod Tenants
pub mod Tokens
