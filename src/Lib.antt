-- ===== src/Lib.antt =====
-- Nexus Local: the core of the API service, services/api/internal.
--
-- The parts and how they interact. The domain package holds the entities: each has a constructor that
-- validates its input, and jobs, documents and data sources have state machines. The store package
-- keeps entities in maps; workers take jobs from it with ClaimNextQueuedJob. The ingest package cuts
-- the text of a document into chunks. The auth package finds out who calls and asks the store for
-- memberships; the app package runs the operations of the HTTP handlers over the store. The providers
-- package has the interfaces of object stores, vector indexes and embedders. The workers claim jobs:
-- the ingestion worker loads an object, has its text cut and embedded, and puts vectors into the index.
--
-- Which file models which part (paths below services/api/internal):
--   Domain/Ids, Tenant, Membership      domain/ids.go, tenant.go, membership.go
--   Domain/Job and below                domain/job.go: Job.Transition and Job.Fail are `transition` and
--                                       `fail`; a life is a sequence of their calls
--   Domain/Document, Document/Life      domain/document.go
--   Domain/DataSource and below         domain/data_source.go; Patterns has NormalizeDataSourcePatterns
--   Domain/SourceView, PolicyProfile    domain/source_view.go, source_policy_profile.go
--   Domain/Conversation, Audit          domain/conversation.go, audit.go
--   Ingest/Chunker and below            ingest/chunker.go: Chunk is `chunk`, its loop `chunk_loop`
--   Store and below                     store/memory/store.go, store/contracts.go: the record Store has
--                                       one field for each map, and each method is a function of its
--                                       name; Jobs/Claim, WellFormed and Isolation hold its theorems
--   Store/Abstract and below            store/contracts.go: a repository of finite functions
--   Auth, Auth/Access                   auth/auth.go
--   App/Tenants and below               app/tenants.go
--   App/Documents and below             app/documents.go: `none` in DocumentService is a nil interface
--   App/Jobs, Audit, SourceViews        app/jobs.go, audit.go, source_views.go,
--                                       source_policy_profiles.go
--   App/DataSources and below           app/data_sources.go; Requests has the requests for jobs on a
--                                       source, Sweeps what is done to all documents of a source
--   App/Search, Queries                 app/search.go, query_rewrite.go
--   App/Conversations and below         app/conversations.go
--   Providers                           providers/contracts.go
--   Providers/Objects, Vectors, Router  providers/objectstore/memory/store.go,
--                                       providers/vector/memory/index.go, providers/model_router.go
--   Ingest/Kinds                        ingest/extractor.go, the kinds of documents
--   Worker and below                    worker/ingestion.go, ingestion_batch.go, source_scheduler.go,
--                                       source_preflight.go; the end of ProcessNext is `settle`
--   Worker/Policy, Scans, Plans         worker/source_scan.go (what a scan skips, and what it keeps
--                                       around its walk), source_plan.go
--   World                               the state of services and workers: repositories, objects and
--                                       vectors
--   Prelude, Result, Action, Text, Map, Sort, Clock: numbers, errors, state passing, and the parts of
--   Go's library that the code calls; Tests: runs at fixed inputs.
--
-- Conventions. A method that mutates its receiver returns the new value, and an error leaves the old
-- one. A call of the store takes a Context, which is what ctx.Err() returns throughout that call, and
-- a state; the lock of the store makes each call one step. Strings are lists of code points, so they
-- are valid UTF-8, but for what Text/Bytes cuts inside a rune; the case table of unicode beyond ASCII
-- is a parameter. A string type with constants is a data type with one more constructor for all other
-- strings. A time is a number of nanoseconds since the zero time, and what time.Now returns is the
-- argument `wall`: if a call reads the clock twice, as CompleteScan does where it is given the zero
-- time, one value stands for both readings. Counters and intervals are not bounded: overflow of a
-- 64-bit int or of a time.Duration, which no interval that passes the validation reaches, is left out. A map is a list of entries, in the order of one iteration.
-- sort.Slice is insertion; on orders that are strict and total the result is that of any sort.
--
-- Bounds and fuel: the loop of the chunker takes fuel, one round each; one more than the number of
-- runes is enough wherever the loop ends at all by the conditions stated below. A call of the ingestion
-- worker is a Run, which may not return, as its chunker may not. The digits of a number take one more
-- round than the number.
--
-- Not modelled: the Postgres store and its SQL, the HTTP router, the walk of a scan with its
-- uploads, answers in parts (AskStream), the providers over the network, the hash
-- embedder, what the extractor reads from the formats, evaluation, configuration, and the web
-- application. Embeddings, scores and their order are parameters, since they are floating-point
-- numbers. The identifiers that a generator returns and the times that a clock returns are arguments.
pub mod Prelude
pub mod Result
pub mod Text
pub mod Map
pub mod Sort
pub mod Clock
pub mod Domain
pub mod Ingest
pub mod Action
pub mod Store
pub mod Worker
pub mod World
pub mod Providers
pub mod Auth
pub mod App
pub mod Tests
