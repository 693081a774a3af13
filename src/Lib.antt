-- ===== src/Lib.antt =====
-- PiSSM: distributed inference of Mamba models over worker nodes.
--
-- The orchestrator keeps a registry of worker nodes, cuts a model's layers into one range per
-- available node, has each worker load its range, and runs forward passes through the workers: a pass
-- enters at the first worker, each worker runs its layers and forwards the tensor to the next one, and
-- the last one delivers the result to the orchestrator's callback service, where the pass waits for it
-- in a result store. A generation is a loop of passes that keep the workers' caches.
--
-- The modules and the code that they are about:
--   Nodes       orchestrator/node_registry.py: NodeRegistry; below it Nodes.Service for
--               orchestrator/service.py, NodeServiceServicer.
--   Heartbeats  worker/heartbeat.py: the rounds of HeartbeatClient._heartbeat_loop;
--               Heartbeats.Lifecycle is start, stop and _reconnect with the thread of the loop.
--   Manifest    inference/manifest.py: ModelManifest, validate_manifest, manifest_from_dict and
--               load_manifest; Manifest.Registry is ModelRegistry of inference/model_registry.py.
--   Dispatch    orchestrator/dispatch.py: split_layers, plan_dispatch.
--   Tensors     inference/tensor_utils.py: serialize_tensor, deserialize_tensor.
--   Shard       inference/shard.py: MambaShardModule, its constructor, from_model and forward.
--               Shard.Locations is tensor_locations_for_range, and Shard.Weights is
--               from_tensor_locations, which builds a shard from the files of a checkpoint.
--   ModelStore  orchestrator/model_store.py: ModelStore.
--   Worker      inference/service.py: InferenceServiceServicer, and ModelHandle of
--               inference/loader.py; Worker.Running is RunShard, Worker.Loading is LoadShard and
--               UnloadShard with the threads that load and report;
--               Worker.Loading.Building is load_shard_from_metadata of inference/loader.py.
--   Cluster     the workers on the network with the clients of orchestrator/worker_client.py: the nest
--               of RunShard handlers that one call starts.
--   Results     orchestrator/pipeline.py: ResultStore; Results.Interleaving is any interleaving of the
--               callers' locked sections.
--   Pipeline    orchestrator/pipeline.py: PipelineCallbackServicer.DeliverResult and PipelineRunner's
--               passes; Pipeline.Streams is generate_stream and generate, Pipeline.Loading is load with
--               ReportShardReady and the workers' threads, Pipeline.Unload is unload. Pipeline.Correct
--               and Pipeline.Generation hold the proofs about passes and generations, and
--               Pipeline.Loading.EndToEnd those about a load.
--   Api         orchestrator/http_api.py: the states of the models and their load threads; Api.Ready is
--               the wait of _get_ready_session, Api.Routes the routes that load, redistribute and
--               report, Api.Submission POST /models, Api.Sessions the sessions that the load
--               threads build, and Api.Inference POST /infer. Api.Served puts the parts together.
--   Server      orchestrator/server.py: register_existing_manifests and run_reaper.
--   SystemInfo  worker/system_info.py: get_ip_address.
--   Scripts     scripts/profile_pipeline.py: wait_for_workers; format_bytes of
--               scripts/benchmark_network.py.
--   Base        the names and lemmas that the other modules share.
--   Checks      runs on concrete data.
--
-- State is passed explicitly: an operation takes the state and returns it with its answer. A
-- Python exception is the `raise` of a Result, with a data type of the exceptions of that code; a
-- load that waits without a timeout for a report that never comes gives `none`. Dictionaries are
-- association lists in insertion order, which is the order of Python's. Times are whole units of
-- the clock; sizes and layer numbers are natural numbers. The fuel of `call_run_shard` counts the
-- hops of a call: the runner gives one hop per worker of its plan, which the theorems about chains
-- show to be enough. That of `poll_rounds` counts the rounds of a wait: a round sleeps for the
-- poll interval, so the intervals in the timeout and two more rounds reach its deadline.
--
-- PyTorch, numpy, transformers, protobuf and gRPC are not part of this code. Tensors and caches
-- are parameters; what is assumed of a tensor's buffer are the records TorchLaws and ReadLaws, and
-- what is assumed of a Mamba block is IsLocal: with a cache, layer i reads and writes entry i of
-- it. Measured latencies and memory are a function of the worker's address. A module of
-- transformers is a parameter with its constructor and its forward pass (Modules); a checkpoint's
-- files are a function from their names to their tensors; a tokenizer is the pair of its
-- functions.
--
-- Not modelled: start-up of the processes, sockets and the command line; the dashboard; the other
-- readings of the operating system; downloads of checkpoints; the single-node generation of
-- inference/loader.py, which is a call of transformers; the JSON text of an answer; the
-- measurements of the scripts, and the notebooks.
pub mod Base
pub mod Nodes
pub mod Manifest
pub mod Dispatch
pub mod Tensors
pub mod Shard
pub mod Worker
pub mod Cluster
pub mod ModelStore
pub mod Results
pub mod Pipeline
pub mod Api
pub mod Heartbeats
pub mod SystemInfo
pub mod Server
pub mod Scripts
pub mod Checks
