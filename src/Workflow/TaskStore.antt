-- ===== src/Workflow/TaskStore.antt =====
-- src/value_stream/workflow/task_store.py: `TaskStore` and `TerminalTaskStore`. The simulation
-- library's `Store` and `Event` are parameters. A put task is the one that the store holds, so the
-- event that `put` writes into it is seen in the store.
pub mod Alarm
pub mod Delivery
mod Examples
use Prim.Native.Nat.{ℕ}
use value_stream_simulator.Prelude.{
  Bool, true, false, ◌||◌, Option, none, some, List, [], ◌∷◌, ◌++◌, length, drop, leb, ◌==◌,
  if◌then◌else◌, ◌≡◌,
}
use value_stream_simulator.Prelude.Exec.{
  Result, ok, raise, Exec, pure, throw, gets, modify, continue, ◌>>=◌, ◌>>◌,
}
use value_stream_simulator.Prelude.Number.{Number}
use value_stream_simulator.Task.Event.{EventStatus, ValueError}
use value_stream_simulator.Task.Delivery.{Task, TaskMethod, start_task, end_task, terminate_task}

-- What the stores take from the simulation library: an event, and the items of a `Store` after `put`.
pub record Simpy (n : Number) : Type 1 where
  pub Event : Type 0
  pub triggered : Event → Bool
  pub processed : Event → Bool
  pub value : Event → Option (List (Task n))
  pub succeed : List (Task n) → Event → Event
  pub put_items : List (Task n) → Task n → List (Task n)

pub data StoreError : Type 0 where
  after_alarm limit_exceeded already_triggered : StoreError
  of_task : ValueError → StoreError

-- The `StorePut` that a caller gets: one that is cancelled puts nothing.
pub data StorePut : Type 0 where
  accepted cancelled : StorePut

abbrev pub all_but_last {ℓ} : {A : Type ℓ} → List A → List A
all_but_last [] = []
all_but_last (x ∷ []) = []
all_but_last (x ∷ y ∷ xs) = x ∷ all_but_last (y ∷ xs)

module _ (n : Number) (lib : Simpy n) where
  pub record TaskStore : Type 0 where
    pub name : ℕ
    pub items : List (Task n)
    pub limit : Option ℕ
    pub signal : Option lib.Event
    pub baseline : ℕ

  abbrev pub StoreMethod : Type 0 → Type 0
  StoreMethod A = Exec StoreError TaskStore A

  unfoldable pub new_store : ℕ → TaskStore
  new_store name = record { name = name; items = []; limit = none; signal = none; baseline = 0 }

  -- The event is written into the task, which the store holds already.
  unfoldable pub mark : TaskMethod n Unit → Task n → StoreMethod Unit
  mark m item store =
      let (r, item') = m item in
      (
        elim r [ ok u ↦ ok tt | raise x ↦ raise (of_task x) ],
        record store { items = lib.put_items store.items item' },
      )

  unfoldable pub check_alarm : Option ℕ → Option lib.Event → TaskStore → TaskStore
  check_alarm (some limit) (some signal) store =
      if length store.items == limit
      then record store { signal = some (lib.succeed (drop store.baseline store.items) signal) }
      else store
  check_alarm _ _ store = store

  unfoldable pub put_unalarmed : TaskMethod n Unit → Task n → StoreMethod StorePut
  put_unalarmed m item = do
    mark m item
    modify (λ store. check_alarm store.limit store.signal store)
    pure accepted

  -- The two `put`s, which differ in the event that they write.
  unfoldable pub put_with :
      TaskMethod n Unit → Task n → Option ℕ → Option lib.Event → StoreMethod StorePut
  put_with m item (some limit) (some signal) store =
      if lib.processed signal
      then (raise after_alarm, record store { items = lib.put_items store.items item })
      else if lib.triggered signal
      then (ok cancelled, record store { items = all_but_last (lib.put_items store.items item) })
      else put_unalarmed m item store
  put_with m item _ _ store = put_unalarmed m item store

  unfoldable pub put : n.Float → Task n → StoreMethod StorePut
  put now item store =
      put_with (start_task n now store.name none) item store.limit store.signal store

  unfoldable pub terminal_put : n.Float → Task n → StoreMethod StorePut
  terminal_put now item store =
      put_with (terminate_task n now store.name EventStatus.success none) item store.limit
        store.signal store

  -- The callback of `get`, on the task that left the store.
  unfoldable pub record_history : n.Float → ℕ → TaskMethod n Unit
  record_history now name = end_task n now (some name) EventStatus.success none

  unfoldable pub set_alarm : ℕ → lib.Event → StoreMethod Unit
  set_alarm limit signal store =
      if leb limit (length store.items)
      then (raise limit_exceeded, store)
      else if lib.triggered signal
      then (raise already_triggered, store)
      else (
        ok tt,
        record store { limit = some limit; signal = some signal; baseline = length store.items },
      )
