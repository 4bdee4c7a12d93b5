-- ===== src/Lib.antt =====
-- RecomputeOrMigrate: the scheduling and recovery core of a disaggregated serving engine for language
-- models. A request is first computed by the context stage (its prompt), then goes over a bridge queue to
-- the decoding stage (its further tokens). Each stage has an engine with a scheduler and a block manager,
-- which keeps the key-value cache in blocks on the GPU and on the CPU. When a decode worker fails, the RoM
-- scheduler decides for each of its requests whether the cache is migrated or computed again.
--
-- The parts, the files that model them, and the sources:
--   Request, Request/Sampling, Request/Batch, Request/Migrating: requests, sampling parameters, batches and
--     the elements of the bridge queue (distserve/request.py; the counter of distserve/utils.py).
--   Config, Config/Model: the sizes and limits that the schedulers read, and what the configuration of a
--     model says of its layers, heads and size (distserve/config.py).
--   BlockManager: the block tables and the free and lent blocks (distserve/block_manager.py). Its Ledger is
--     what it promises with the blocks forgotten: how many there are, and how many a request holds where.
--   ContextScheduler: first come, first served, with blocks on the fly
--     (distserve/context_stage_scheduler.py).
--   ContextEngine: `_step` of the context engine, which takes a batch from the scheduler, gives it blocks,
--     runs it through the pipeline and puts the unfinished requests on the bridge
--     (distserve/single_stage_engine.py).
--   DecodingScheduler: the batches of the pipeline, the waiting, swapped and unaccepted queues
--     (distserve/decoding_stage_scheduler.py).
--   DecodingEngine: `_migrate_blocks` and `_step` of the decoding engine, whose pipeline refers to the
--     batches of its scheduler by their indices (distserve/single_stage_engine.py).
--   Rom/Config, Rom/Decision, Rom/LocalScheduler, Rom/Logger: the RoM scheduler (distserve/rom_config.py,
--     distserve/rom_decision.py, distserve/rom_local_scheduler.py, distserve/rom_logger.py).
--   Recovery: the handling of a failed decode worker (distserve/single_stage_engine.py,
--     `get_rom_decision` of distserve/engine.py and `pull_kv_blocks_for_request` of distserve/worker.py).
--   Engine: `generate` with the maps that it keeps, and the callbacks of the stages (distserve/engine.py).
--   Engine/Placement: the placement groups and the workers of both stages in them (distserve/engine.py,
--     `_init_workers` of distserve/single_stage_engine.py).
--   Memory: the shape and the size of the cache of a worker, and the blocks that fit
--     (distserve/worker.py).
--   Lifetime: the events of a request and their form in JSON (distserve/lifetime.py).
--   Simulator/Requests, Simulator/Workers: a request of the simulation with its counter and log, and a worker
--     with its queues and batches (simdistserve/base/request.py, simdistserve/base/worker.py).
--   Simulator/Estimates: whether the length of a pass can be estimated
--     (simdistserve/estimators/time_estimator.py).
--   Simulator/Systems, Simulator/Clusters: workers and scheduler together, the turns of the processes and
--     the arrivals, and the clusters (simdistserve/base/scheduler.py, simdistserve/base/worker.py,
--     simdistserve/clusters/disagg.py, simdistserve/clusters/vllm.py, simdistserve/utils.py).
--   Simulator/Configs, Simulator/Bisection: the search over configurations and rates
--     (simdistserve/benchmarks/search_configs.py, simdistserve/benchmarks/search_binary.py,
--     simdistserve/estimators/memory_estimator.py, simdistserve/constants.py).
--   Floats: the operations on floating-point numbers, and the laws of their order.
--   Base: lists, dicts, integers and results. Samples: small inputs.
--
-- How the state is modelled. An object is a record, a method that changes it a function from the record to
-- the record, and a raised exception a value of `Result`. What the methods keep in attributes of other
-- objects stands where they find it: the block manager of the decoding stage is a field of its scheduler,
-- which swaps requests. The calls to the workers, the events and the log are lists. An awaited call of
-- another component is one step. An exception of the event loop ends the engine, so that no state after it
-- is modelled; the exceptions that the source catches are handled.
--
-- Numbers. Counts, ids and lengths are natural numbers, integers that may be negative are ℤ, and
-- Python's integers do not overflow. Times of requests and sampling parameters are integers in a fixed
-- small unit, so that NaN and what lies between two units are not among them. A cost, a bandwidth or a
-- latency of the RoM scheduler is an element of `Floats`, an interface of which only operations, and
-- for some theorems the order of IEEE 754, are assumed; Samples/Numbers is an instance. The threshold
-- of the decoding scheduler is in percents.
--
-- Loops. The loops over lists are structural recursions. The two loops of the decoding scheduler's
-- `get_next_batch` run on fuel: the first on the number of requests in the current batch, past which the
-- `pop` of the source raises, and the second on the number of queued requests, each turn of which takes one
-- request off a queue.
--
-- The simulator. The environment of simpy runs the processes of the workers; the model takes any
-- interleaving of their turns and of arrivals, at any times. A turn goes up to the next wait: the wakeup
-- event, or the end of a pass. The objects that are shared, the workers, are known by their places. A
-- request stands in one queue or batch, or among those that left. A worker whose model is unknown, or not
-- profiled at its size, raises at its first pass; one profile, of OPT-66B at two workers under vLLM, is left
-- out, since its delays may be negative. The bisection runs on fuel; each round
-- halves the range, so that as many rounds as halve the highest rate to `esp` are enough. Its rates are
-- fractions with powers of two below, which floating-point numbers hold exactly.
--
-- What is a parameter: the tokenizer, the configuration that is loaded for a model, the tokens that the
-- workers return, the clocks, the variables of the environment and the reading of numbers from text,
-- the outcome of a transfer between workers (as the source stands, none from a live one works), the
-- memory of a GPU, the identifiers of the chunks, the product of a size and the back pressure of a
-- worker, and the experiment at a rate.
--
-- Not modelled: the kernels and the device memory of the workers, Ray's actors and resources, the HTTP
-- server, the download and conversion of weights, the endless event loops around the steps, the start of
-- the stages, the cancellation of a generator, the values that the simulator estimates for the length of a
-- pass, its workloads and tables, and the scripts under evaluation, examples and tests. Printing and the
-- text forms of objects are left out everywhere.
mod Base
pub mod Config
pub mod Request
pub mod BlockManager
pub mod ContextScheduler
pub mod ContextEngine
pub mod DecodingEngine
pub mod DecodingScheduler
pub mod Floats
pub mod Engine
pub mod Lifetime
pub mod Memory
pub mod Recovery
pub mod Rom
pub mod Simulator
mod Samples
