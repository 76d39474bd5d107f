-- ===== src/Lib.antt =====
-- A verification library for markitdown-server, a service that converts documents to markdown.
--
-- The program. The API (api/index.py) takes the URL of a document, downloads and hashes it, plans page ranges
-- (chunker.py), stores the source (storage.py), writes a job with one row for each chunk (jobstore.py) and publishes one
-- message for each chunk (taskqueue.py). Any number of workers (worker.py) consume the messages: a worker converts its
-- range, stores the markdown as a part, and counts the job down. The worker that counts it down to zero joins the parts,
-- splits the text into pages (pagination.py), stores the document and finishes the job. A chunk that fails is published
-- again with a delay, until its attempts are used up and it fails the job.
--
-- The files, each with its children for the proofs:
--   Prelude     tests, lists, texts and integers that all parts share
--   Chunker     chunker.py: plan_chunks, and extract_pages on the list of a document's pages
--   Pagination  pagination.py: paginate and build_pagination
--   Sql         the kinds of statement that jobstore.py makes, on a table as the list of its rows
--   Tables      the rows of migrations/001_init.sql, and the conditions of the statements on them
--   Jobstore    jobstore.py over these tables, one function for each of its functions; Jobstore.History has the
--               sequences of transactions that producers and workers commit together; Jobstore.Completing and
--               Jobstore.Fresh what one worker's transactions and create_job leave in the tables
--   Storage     storage.py: the keys, and reads and writes on the bucket; Storage.Fingerprint has hash_file,
--               config_fingerprint and make_doc_key; Storage.Provisioning get_client and ensure_bucket
--   Taskqueue   taskqueue.py: tasks, the topology, _publish (here publish_all), and the consume loop; Taskqueue.Connecting
--               has connect, close, health and queue_depth on the connection of a thread
--   Cache       worker.py: fetch_source's cache of source files and prune_source_cache
--   Converter   converter.py: download, get_llm_client and convert_file
--   Action      what a process acts on, how one of its calls may end, and _publish (publish_messages) as such calls
--   Worker      worker.py: convert_range, assemble, _handle_failure (here handle_failure) and handle, cut where it
--               branches into convert_chunk, record_chunk, finish, handle_active and handle_found; on_task. Worker.Running has
--               run_forever, main, the signal handler, consumer_name and _touch_liveness (touch). Worker.Pipeline has
--               the handling of several tasks by one worker, one after the other (handle_all), and Worker.Pending the
--               tasks of a list of deliveries without its repetitions
--   Api         api/index.py: its settings, requests and replies; Api.Submit has submit, cut where it branches into
--               submit_file, submit_new and enqueue, and _submit_request (submit_request); Api.Pages _wait_for_job
--               (wait_for_job) and the endpoints that read a job or a page; Api.Endpoints the others; Api.Delivered
--               puts submit, the workers and the page endpoint together
--   Db          db.py: _run (run_sql), query, execute, transaction, migrate and _split_statements; Db.Opening has the
--               calls that open a connection, _rows_to_dicts, query_one, ensure_ready and reset
--   Environment config.py: _int (int_setting), _bool (bool_setting) and the settings that are read with them
--
-- Numbers. Python's int is ℕ where the code never goes below zero, and ℤ for page ends and the counter of a job.
-- A str is the list of its code points. Fuel: range_step gets as many rounds as there are pages, and hard_split as many
-- as the block has characters: with a page size and a chunk size of at least one, each round takes a page or a
-- character. Decimal digits take the number itself as fuel, and the blocks of a hashed file its length. The number of polls of
-- wait_for_job is an argument; Python sets no bound, and a theorem says how many are enough.
--
-- Parameters. The standard library's JSON and UTF-8 (Storage.Codec, Taskqueue.TaskCodec), of which only the round
-- trip is assumed; sha256 (Storage.Fingerprint.Hash), of which the law of `update` and the alphabet of a digest are; pypdf,
-- markitdown (Worker.Tools) and requests (Api.Outside), of which nothing is; what each call of the database, the bucket, the
-- broker and the driver comes to (the schedule of a World, the outcomes of publish_all and of a Session).
--
-- Processes. A World is what one worker or one request sees: before each of its calls the schedule lets the other
-- processes commit any transactions of jobstore.py and change the bucket. The messages of a World are this process's own.
-- What all processes do together is a history of Jobstore.History. A statement is one call of a World: it passes, is
-- lost, or takes effect and raises; Db says how far the connections of db.py keep to that.
--
-- Not modelled. FastAPI's routing and the schema of the OpenAPI document, the drivers and locks of db.py and its
-- `changes`, which is one SELECT, the settings that are floats, the loading of .env and signs or digits other than ASCII in
-- the environment, logging, temporary files, and what the broker does with a message between its publication and its
-- delivery.
pub mod Action
pub mod Prelude
pub mod Chunker
pub mod Pagination
pub mod Sql
pub mod Tables
pub mod Jobstore
pub mod Storage
pub mod Taskqueue
pub mod Cache
pub mod Worker
pub mod Converter
pub mod Environment
pub mod Api
pub mod Db
