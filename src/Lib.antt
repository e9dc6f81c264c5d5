-- ===== src/Lib.antt =====
-- A model of the agent framework under agent_framework/, with proofs.
--
-- An agent (agent_framework/loop.py) asks a provider turn by turn, runs the tools that the answers
-- call and compacts its conversation. A provider's calls are retried (retry.py). A pool
-- (model_pool.py) spreads workers over the models, and a worker (worker_manager.py) takes a slot
-- of it and runs a loop. The todo tool (todo.py) keeps a plan in a store (todo_backends.py), in
-- memory or in a file. Tools stand in a registry (tools.py), which runs the calls and asks a
-- resolver (tool_resolver.py) for names that it does not know; to the loop of the agent the
-- registry is a parameter. Conversations are kept in a store of sessions (session.py). Ideas for
-- research wait in a queue, a file (sandbox/task_queue.py), and jobs run in processes of their own
-- (sandbox/gpu_jobs.py). Code that was run is kept in a history (sandbox/code_history.py). Tools
-- use markers, redaction and a tracker of their calls (tool_security.py). Calls can be traced
-- (tracing.py).
--
-- Files, and the code that they model:
--   Common      shared tests, list lemmas, dictionaries as association lists, texts
--   Pool        agent_framework/model_pool.py: `ModelPool` is the class, `route`, `release`, `add_slot`,
--               `available_capacity` and `total_capacity` its methods on an explicit state
--   Retry       agent_framework/retry.py: kinds of errors and `classify_exception`; Retry.Call has
--               `RetryConfig.delay_for_attempt` and `retry_call`
--   Todo        agent_framework/todo_backends.py: Todo.Memory is MemoryTodoStore and Todo.File is
--               FileTodoStore, method by method; Todo.Executor is `_todo_executor` of
--               agent_framework/todo.py
--   Agent       agent_framework/loop.py: Agent.Compact has steering and compaction, Agent.Final
--               `_finalize_empty_tool_response`, Agent.Turn `_run_loop` and `run`; UsageStats and
--               ChatResponse of agent_framework/providers.py
--   Tools       agent_framework/tools.py: ToolDef and the registry as its dict `_tools`; Tools.Execute is
--               `ToolRegistry.execute` and Tools.Names `_TOOL_NAME_RE`; Tools.Resolver is
--               agent_framework/tool_resolver.py
--   Worker      agent_framework/worker_manager.py: `_execute_worker` and `_filter_tools`, over the models
--               of the pool, the registry and the loop; Worker.Batch is `execute`, Worker.Decompose
--               `decompose`
--   Queue       agent_framework/sandbox/task_queue.py: TaskQueue over the text of its table and the lines
--               of its journal, method by method; Queue.Table has the rows as text, Queue.Board what the
--               queue promises
--   Gpu         agent_framework/sandbox/gpu_jobs.py: GPUManager, with the ended processes and the threads
--               in `_monitor_job`; Gpu.Child is `_run_gpu_job`; Gpu.Steps has the steps of the whole
--   History     agent_framework/sandbox/code_history.py: CodeHistory with its file; its file is the text, with whole and
--               cut writes; `record` is `record_cell`
--   Security    agent_framework/tool_security.py: Security has the markers, Security.Rules the outbound
--               rules, Security.Tracker the tracker of tool calls
--   Tracing     agent_framework/tracing.py: Tracer and its context variables as one state
--   Session     agent_framework/session.py: SessionStore over a dictionary from ids to files
-- The other modules below these hold proofs, and the modules Tests hold runs and examples.
--
-- Parameters: floats and their operations (Retry), the texts' `lower` (Retry), uuids as a sequence
-- of texts (Todo), the provider's answers, the tools, the clock and the JSON of values (Agent),
-- and the threshold of a compaction as a test on the estimated tokens (Agent), the executors,
-- json.loads, difflib and the model that resolves a name (Tools), how the loop sees a provider and
-- how the threads of a batch end (Worker), int() and the format 03d (Queue), uuids, pids, the
-- clock, subprocess.run and the printing of numbers (Gpu), compiled patterns, str.upper and floats
-- (Security), times and values of attributes (Tracing), and the JSON of an entry (History).
--
-- Loops over a range are recursion on the number of rounds left, which is the one of the source
-- (`max_retries + 1` rounds in `retry_call`, `max_turns` turns in `run`); there is no other fuel.
-- Locks make each method of the pool and of a store one step. The file of a store is missing, not
-- readable as JSON, or holds data; writing replaces it whole. The uuids of the todo store in memory
-- are taken to differ, so that the entries with one id are one object; the ids in the file of a
-- history are taken to be natural numbers or texts.
--
-- Not modelled: logging, the calls of the tracer and of the session store from the loop, HTTP and
-- JSON of the providers, the built-in tools, the sandbox server, docker, memory and consultation.
pub mod Common
pub mod Pool
pub mod Retry
pub mod Todo
pub mod Agent
pub mod Tools
pub mod Worker
pub mod Session
pub mod Queue
pub mod Gpu
pub mod History
pub mod Security
pub mod Tracing
