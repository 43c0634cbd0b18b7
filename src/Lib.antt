-- ===== src/Lib.antt =====
-- parsl runs Python functions as tasks: the data flow kernel holds the tasks until what they
-- depend on is done, launches them on an executor, retries failures, and sets their futures. The
-- high-throughput executor sends its tasks through an interchange to managers in batch jobs.
--
-- Dataflow: the kernel.
--   Objects: the values, exceptions and futures that the kernel looks at (parsl/dataflow/errors.py).
--   States: parsl/dataflow/states.py.  Resolver: parsl/dataflow/dependency_resolvers.py.
--   Record: a task's record (parsl/dataflow/taskrecord.py) and the actions on it.
--   Config: the settings of parsl/config.py that are read.
--   Joins, Exec, Launch: the handlers of parsl/dataflow/dflow.py (handle_join_update,
--     _complete_task; handle_exec_update; _launch_if_ready_async, launch_task, _unwrap_futures,
--     _gather_all_deps), each as a function of the context of one task.
--   Kernel: submit, and the step relation of the events: a submission, a launch by the one thread
--     of the launch pool, the end of a try, a callback of a joined future, another future's result,
--     the cleanup. A callback may be late, and ids may be put into the pool at any time.
--   Memo: parsl/dataflow/memoization.py. Hash (id_for_memo, make_hash), Memoizer (check_memo,
--     update_memo, _load_checkpoints); Checkpoint: handle_app_update, checkpoint and the checkpoint of
--     cleanup of dflow.py, with pickle.dump, which may raise, as a parameter, and the tasks that finish
--     and the checkpoints that are taken as a sequence of events. Its other modules hold proofs. A plain value and a kwarg's name are numbers, in the order in which
--     `sorted` puts them.
--   Failing: the failures of arguments and futures, said without the loops that collect them.
--   Keeps, Invariant: what every handler keeps. Kernel/*: the theorems on reachable states.
-- A future is named by the task that it belongs to, and looked up in the kernel, so that a future
-- passed as an argument and the task's own future are one object. What a handler raises is dropped
-- by the future that calls it, and the context keeps what was changed before. The answers of
-- memoization and of executors are parameters of a launch there.
--
-- Htex: parsl/executors/high_throughput.
--   Interchange: interchange.py with manager_record.py. State, Queue (get_tasks,
--     process_task_incoming), Dispatch (process_tasks_to_send), Messages
--     (process_manager_socket_message), Expire (expire_drained_managers, expire_bad_managers), Loop
--     (process_command, and a turn of start). Runs: the states that the loop reaches. Tables,
--     Accounting, Turns, Lost and Held hold proofs.
--   Executor: executor.py, the task table: submit, _result_queue_worker, and
--     set_bad_state_and_fail_all of parsl/executors/status_handling.py; the poller's thread may put
--     the executor into its bad state between any two messages.
--   ScaleIn: executor.py, scale_in and _hold_block, with the interchange's list of managers and the
--     provider's answer as parameters.
--   Pool: process_worker_pool.py: worker, worker_watchdog, ferry_result. A worker's process may end
--     between any two lines of its loop that other processes can see.
--   Affinity: process_worker_pool.py, the cores that worker pins itself to.
--   Communicator: process_worker_pool.py, interchange_communicator: a turn with its readings of the
--     clock and what poll has. Beats: when heartbeats go out. Live: beside the interchange's threshold.
--   Mpi: mpi_resource_management.py: MPITaskScheduler, with Python's limit on recursion as a number.
-- Sockets are lists of messages sent; a time is a natural number; `none` is an exception that
-- leaves the loop. The manager selector is a parameter,
-- and Selectors has that by block id of manager_selector.py, with the order of block ids a parameter.
--
-- Jobs: the batch jobs of executors, called blocks.
--   States: parsl/jobs/states.py.  Blocks: parsl/executors/status_handling.py (scale_out_facade,
--     scale_in, scale_in_facade, status, poll_facade), with the provider's answers as parameters.
--   Strategy: _general_strategy of parsl/jobs/strategy.py, as a decision on the numbers that it
--     reads. The parallelism is a fraction, and the ratios are exact where the source has floats.
--   ErrorHandlers: parsl/jobs/error_handlers.py; Window: which jobs the windowed one looks at.
--   Poller: parsl/jobs/job_status_poller.py, a turn for one executor: the poll, the strategy and the call
--     that it ends in, with what providers answer and the outstanding tasks as parameters.
--
-- Providers: the table of jobs of the providers of parsl/providers, with the answers of the commands of
--   the batch systems, and what the system says of a process, as parameters.
--   Slurm: slurm/slurm.py (_status, its batches, cancel).  Lsf: lsf/lsf.py (_status, submit after its
--     command, cancel); Runs has its calls in any order.  Local: local/local.py (status), with the
--     process of a job as a step relation.
--   The loop of batches takes as many turns as there are jobs, since a batch has one job at least.
--
-- Serialize: pack_buffers and unpack_buffers of parsl/serialize/facade.py, on lists of bytes. The
--   loop of unpack_buffers takes a byte at least in each turn, so as many turns as there are bytes
--   are enough.
--
-- Each part has a module Examples with runs at concrete values.
--
-- Not modelled: time stamps, logs, monitoring, locks (a handler of a task runs to its end), file
-- staging, processes and sockets, the other executors and
-- providers, and launchers.
-- Loops run over lists. The one recursion that may not end, _schedule_backlog_tasks, takes the
-- depth that Python allows, and the theorems say which depth is enough and when none is.
pub mod Dataflow
pub mod Htex
pub mod Jobs
pub mod Prelude
pub mod Providers
pub mod Serialize
