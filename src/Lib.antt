-- ===== src/Lib.antt =====
-- The value stream simulator: a discrete-event simulation of software delivery (value_stream/task,
-- workflow, resources, simulation), served over HTTP by a job service (value_stream/service) to an
-- application of workspaces and comparisons (value_stream/app).
--
-- How the parts interact. The service keeps each submitted job in a store: a client reserves a job,
-- worker threads start and finish its models, and clients poll its status and its outcomes with a
-- cursor. A model moves tasks through stores; each store writes an event into the history of a task
-- that enters or leaves it, and the terminal store's alarm ends the simulation. The application keeps
-- workspaces with their runs; a coordinator takes from the cache the results that are there, submits
-- the other models of a run to the service as one job, and polls it to its end.
--
-- Which file models what (paths from src/value_stream):
--   Prelude            shared helpers: lists and dictionaries measured by native numbers, methods
--                      that may raise (Exec), floats as an interface (Number)
--   Service/Schemas    service/schemas.py: the wire records, and the validators as Boolean tests
--   Service/Settings   service/settings.py: the limits, and `__post_init__`
--   Service/JobStore   service/job_store.py: `_Job`, `InMemoryJobStore`, `_prune`, `_get`;
--                      Access has `create`, `reserve`, `status`, `page`; Models has `start_model`,
--                      `finish_model`, `_terminal`, `cancel`
--   Service/Scheduler  service/scheduler.py: `submit`, `_start_job`, `_forget_finished`, `cancel`,
--                      `close`; Report has what `_run_model` reports for what its process did
--   Task/Event         task/task_event.py, its enumerations, task/epoch.py
--   Task/History       task/task_history.py: `start`, `end` (named finish), `resume`, `terminate`
--   Task/Delivery      task/task.py: `Task`, `SupportTask` and their methods
--   Task/Router        task/task_router.py: the routers as data
--   Resources/Tracker  resources/resource_tracker.py: `InMemoryResourceTracker`
--   Simulation/Policy  simulation/default_simulation_policy.py
--   Workflow/Sdlc      workflow/sdlc_workflow.py: its states, and the wiring in `start`
--   Workflow/TaskStore workflow/task_store.py: `TaskStore`, `TerminalTaskStore`, the alarm
--   App/Settings       app/settings.py: the limits, and `__post_init__`
--   App/Schemas        app/schemas.py: the data, and TERMINAL; app/errors.py: the codes
--   App/Storage        app/storage.py: `InMemoryWorkspaceStore`; Pruning has `prune_cache`,
--                      `prune_history`, `prune_for_capacity`; Access the short methods and
--                      `retain_result`, `result`, `finish`; Admission `previous` and `register`;
--                      Editing `save_editor`, `preview`, `comparison`
--   App/Coordinator    app/coordinator.py: `complete_outcome` and a turn of the polling loop;
--                      Loop has `execute`, its failures, `launch`, `cancel_run`, `resume`
--   App/Generation     app/generation.py: `axis_values`, `validate_model_limits`,
--                      `materialize_team`, `concrete_model`, `expand_scenarios`; Previews has
--                      `materialize_tasks`, and fills with it and the expansion the interface
--                      that the store takes (Generator of App/Storage)
--   App/Metrics        app/metrics.py: `reduce_points`; `loss_percent` is in App/Coordinator
--
-- How state is modelled. A method is a function from the object's state to a result, or an
-- exception, and the new state; what was written before an exception stays written. A lock makes a
-- method of the job store or of the scheduler atomic, so threads interleave whole calls, and both
-- are studied under any sequence of calls; the callback of a future that ends is a call of its own.
-- Dictionaries are association lists, where a write to a key keeps the key's place. Identifiers,
-- fingerprints and workflow states are numbers: the code only compares them. A run's status is one
-- object that its workspace and its record share, so a workspace lists identifiers. In the polling
-- loop, a turn takes what the service answers as a value; the loop is a recursion over these
-- answers, and where they end it waits. It gives the delays that it sleeps for with the store that
-- it leaves. An application error is its code, without its text.
--
-- Parameters. The clock, `uuid4`, `uuid5`, digests, decimals, random draws and the length of a text
-- are functions of the host; a repeated identifier is allowed for. Floats are the record Number,
-- with the order of finite numbers (IsOrdered), or with exact arithmetic (IsExact, which rounding
-- can break and the integers of Prelude/Integers have), as a hypothesis where it is used.
-- `Store.put` and `Event` of the simulation library are the record Simpy, with SimpyLaws for what
-- its documentation promises. The chunks of `reduce_points` take as much fuel as it has points,
-- since each chunk takes a point at least; no other recursion needs fuel.
--
-- Not modelled: HTTP, files and the user interface; the event loop of the simulation library; the
-- workers' processes and the pool of threads; the resources' own work and the operators; the model
-- and task factories; the codec; of the application, the start of a run, the shutdown, the sums of
-- `plot_data`, and the loop that draws an efficiency until it is in its range.
pub mod Prelude
pub mod Service
pub mod Task
pub mod Workflow
pub mod Resources
pub mod Simulation
pub mod App
