-- ===== src/Lib.antt =====
-- The tiles processor: a producer that discovers satellite, radar and model images and publishes a
-- work unit for each, and workers that download, process and settle the units.
--
-- How the parts interact. On each tick the producer (src/producer) asks its data sources for new
-- images, marks each in the progress tracker (src/clients/progress_tracker.py) and publishes a unit
-- (src/models/work_unit.py) through the RabbitMQ client (src/clients/rabbitmq_client.py) on the queue
-- that the router names. A worker (src/worker/worker.py) fetches the unit, hands it to the work
-- handler (src/worker/work_handler.py), which downloads the source, runs the processor in a child
-- process (src/worker/subprocess_processor.py) and takes the image out of the tracker; then the worker
-- acks, retries, buries or requeues the message by how the handling ended, and records a metrics row.
--
-- Which file models which part:
--   Base: texts and their order, tests, lists, sorting by insertion, integers, statements that change
--     a state and may raise (`Exec`), and Base/Picks, what a loop makes of a list.
--   WorkUnit: WorkUnit with create, create_retry, can_retry; WorkUnit/Body: to_dict, from_dict and the
--     body of a dead letter; a message body is a function from its keys.
--   Tracker: ProgressTracker, its table as a list of rows; cleanup_stale, mark_in_progress and so on
--     are named as in the source, and take the clock's answer first.
--   Rabbit: RabbitMQClient, method by method. pika and the broker are the record `Amqp` of Rabbit/Pika,
--     any implementation of which may raise at any call; Rabbit/Log logs what reaches the wire.
--   Worker/Subprocess: main of the child, and _run_processing_subprocess of the parent.
--   Worker/Children: abort, its escalation, and the spawn, kill and discard of the children, as a step
--     relation over the set of them.
--   Worker/Metrics: JobMetricsContext and JobMetrics. Worker/Site: what the coroutines share.
--   Worker/Handler: WorkHandler.handle. Worker/Teardown: _read_stage_timings.
--   Worker/Messages: Worker._process_message_async, _handle_processing_error, _record_metrics and _consume_tiers. Worker/Drain: _drain, over any
--     schedule of the turns in which its tasks finish.
--   Producer/Routing: QueueRouter. Producer/Tilesets: the listings of existing tiles.
--   Producer/Discovery: ImageDiscoveryProducer, with data sources and object store as parameters.
--   Sources: what the data sources discover (src/data_sources). Gfs: GfsProducerDataSource, with
--     forecast_steps; Ecmwf: EcmwfProducerDataSource; Glm: Goes19GlmDataSource, with its file names;
--     Abi: Goes19AbiDataSource; Radar: RadarDataSource, with the station filter; Inta:
--     IntaRadarDataSource, with the Rainbow header; Wrf: WrfDataSource; Lister: S3WindowedKeyLister,
--     with the key templates.
--   Store: S3Client (src/clients/s3_client.py) and heavy_upload.py. aioboto3 and the gateway are the
--     record `Gateway` of Store/Client/Aws, whose calls may raise; the disk is a function from paths.
--   Grib: what a GRIB file must hold (src/services/gfs_grib_validation.py); Grib/Backends: the three
--     backends of src/data_sources/gfs_repository.py and gfs_fetcher.py, over a disk and the store.
--   Retention: resolve_retention_map (src/models/lifecycle_config.py) and the lifecycle rules of
--     s3_client.py; settings are a function from the names of the sources.
--   Settings: how config.py reads the input of one source (`_parse_input_source`), and the endpoint,
--     bucket and prefix of src/models/input_source_config.py; urlparse, the environment and the check
--     of a key template are parameters.
--   Worker/Gribs: GfsGribDownloader and EcmwfGribDownloader, over the store and the RabbitMQ client.
--   Metrics/Timeline: encode_timeline (src/metrics_api/timeline_codec.py), with the reference decoder
--     of tests/test_timeline_codec.py.
--   Metrics/Repository: MetricsRepository (src/clients/metrics_repository.py), its table as a list of
--     rows in the order of their ids, SQLite's answer to a write as a parameter, and JSON as the record
--     `Json`. Metrics/Server: the routes of src/metrics_api/server.py for jobs, timeline and import.
--   Examples: small inputs, with the theorems applied to them.
--
-- Bounds and fuel. Numbers are unbounded, as Python's are; a time is a number of microseconds, and a
-- subtraction of times that stops at 0 stands where the source compares with an earlier time. Most
-- loops recurse on their lists or on the number of attempts left. The loops of the lister's templates,
-- of the GLM anchors and of the batches of a deletion take as many rounds as their bounds allow. The
-- wildcards of the lister have no such bound: `resolve` takes any fuel, and answers `none` if it runs
-- out. The scan of a GRIB file takes as many rounds as the file has bytes, since each round moves on.
-- The drain loop runs over any list of rounds. `attempts` of WorkUnit/Retry only counts.
--
-- Not modelled: the image processing itself and its rasters (numpy, GDAL: floating point), the
-- registry of sources and the repositories behind them, download_folder, the choice of lane and the
-- cache of clients of the object store's client, the averages that the metrics repository computes
-- (floating point), the queue monitor, the rest of the configuration, logging, health checks, the
-- scheduler, and the blocking `consume` of the client.
-- The interleaving of coroutines is modelled only as a signal that may arrive while a handler waits,
-- as the order in which the tasks of the drain loop finish, and as the order in which children are
-- spawned, signalled and reaped. Clocks do not run in that relation.
pub mod Base
pub mod WorkUnit
pub mod Tracker
pub mod Rabbit
pub mod Worker
pub mod Producer
pub mod Sources
pub mod Store
pub mod Grib
pub mod Metrics
pub mod Retention
pub mod Settings
pub mod Examples
