-- ===== src/Lib.antt =====
-- The Personal Intelligence Layer reads a person's Telegram messages from Redis streams and turns them
-- into analyses, tasks, profiles and summaries. Each service under services/ has a loop that reads a
-- batch of entries, decodes each with pydantic, hands it to a handler that writes to Postgres and Redis
-- and publishes to other streams, and acknowledges it. The services meet in the streams and the tables.
--
-- Base: tests, lists, texts as code points, Telegram's integers, and the calendar. Times are
-- microseconds since 0001-01-01 in UTC; confidences are thousandths. The month of a date is found with 11
-- steps of fuel, after which only the twelfth month is left; the digits of a number with one step more
-- than its value, which is more than its digits.
-- Exec: handlers that change a state and may raise; Leaves, OnError, Preserves, Ensures and Becomes are
-- proof rules for what such a handler leaves alone, always or where it raises, what it preserves, what
-- holds where it returns, and what one of its steps makes of a part of the state.
-- Contracts: the events and commands of libs/contracts (events.py, commands.py). A field named `text`
-- there is `content` here; fields that no modelled code reads are left out.
-- Store: the table processed_event, by which a service knows what it has handled (`_is_processed` and
-- `_mark_processed` of each consumer.py), and the lists of libs/storage-clients (redis_client.py) with
-- their time to live.
-- Orchestrator: services/ai-orchestrator. Consumer has the handlers and the loop of consumer.py, Coerce the
-- decoding of a stored window there, three rounds of fuel as in the code,
-- Consumer/Emit what an analysis publishes, Graph and Graph/Normalize the nodes of graph.py, Rollover
-- `needs_rollover`, Features the features and Summary the summary and the drift of preprocessing.py;
-- Router/Analyze is the router of llm.py, Router/Signals and Router/Heuristic its fall back,
-- Router/Sanitize and Router/Translation what it does to answers, Router/Wiring the graph with the
-- router in it, and Backfill is backfill.py; the other modules are proofs.
-- TaskExtractor: services/task-extractor. Rules, Rules/Titles and Rules/Due are rules.py, State the
-- tables, Consumer/Queries the SQL and Consumer the handlers and the loop of consumer.py; Keeping is the
-- proof rule for what all handlers keep, Lifecycle, Sources and Redelivery are proofs.
-- EntityExtractor: services/entity-extractor. Extractor, Reconcile and Consumer are the files of these
-- names (extractor.py, reconcile.py, consumer.py); Mentions and Distinct are proofs.
-- PersonaBuilder: services/persona-builder. Aggregator and Consumer are aggregator.py and consumer.py;
-- Caps is proofs.
-- Maintenance: services/maintenance. Partitions and Jobs are partitions.py and jobs.py; Tiling and
-- Trimming are proofs.
-- ChatSummarizer: services/chat-summarizer. Windows has the edits, Queries the SQL and Consumer the flush,
-- the handler and the loop of consumer.py, Tables its tables, Engine the summaries of llm.py, Heuristics
-- is heuristics.py; Edits, Flush and Unique are proofs.
-- MemoryProjector: services/memory-projector. Owner is the sets of settings.py with
-- `_matches_owner_identity`, Tables the tables, People, Windows, Tasks and Interactions the SQL, Graph
-- `_project_neo4j` and Consumer the transaction, the handler and the loop of consumer.py; Steps, Atomic,
-- Rows, Unique, Merging and Participants are proofs.
-- EmbeddingIndexer: services/embedding-indexer. Vectors is the answer of the embedding service, Qdrant
-- the vector store, and Service the collection, its alias and the loop of service.py; Collections,
-- Answers and Index are proofs.
-- TelegramIngestor: services/telegram-ingestor. Update is what handlers.py reads of an update, Handlers
-- its handlers with `put_raw` of libs/storage-clients (s3_client.py); Stored is proofs.
--
-- Every loop is a function of the list of its reads, an error or a batch of entries, so that a statement
-- about all lists of reads is one about every moment of the endless loop. A batch is structural
-- recursion and needs no fuel. What is not under the repository's sources is a parameter: the language
-- models, the embedding service and their contexts, Python's `re`, `str.lower`, `str.casefold` and
-- `str.isdigit`, spaCy, langdetect, rapidfuzz, dateparser, libm, UUIDs, `strptime` and pydantic's decoding.
-- Two functions of the sources are parameters too,
-- and not modelled: the formula of `_compute_trust` and `extract_topics` of heuristics.py. Of Qdrant the
-- normalisation of vectors under the cosine distance and its refusal of ids that are no UUIDs are left out.
-- The theorems on the consumer of the orchestrator hold for every router and all features; Router/Wiring
-- puts the modelled ones in.
-- The floats of Features and Router/Signals are exact quotients, and `round(x, 3)` is a parameter. In the
-- orchestrator the graph may raise, in the memory-projector the object store, Neo4j and the model of the
-- embedding job, in the entity-extractor the model of a language, in the chat-summarizer the summary and
-- the object store, in the embedding-indexer the embedding and an upsert, in the telegram-ingestor the
-- object store, before or after it has stored the object; elsewhere only the decoding does, and the calls
-- of Postgres and Redis are taken not to fail.
--
-- Not modelled: prompts and HTTP in llm.py and libs/llm-client, and the SQL of the canonical context; the
-- web interface mcp-rest-api, logging, metrics, settings, migrations, scripts and entry points, which are
-- uses of libraries.
pub mod Base
pub mod Exec
pub mod Store
pub mod Contracts
pub mod Orchestrator
pub mod TaskExtractor
pub mod EntityExtractor
pub mod PersonaBuilder
pub mod Maintenance
pub mod ChatSummarizer
pub mod MemoryProjector
pub mod EmbeddingIndexer
pub mod TelegramIngestor
