-- ===== src/Freertos.antt =====
-- The wrappers of include/lwipserver/freertos: Mutex.h, StreamBuffer.h and OsTask.h. The kernel is a
-- parameter: a state that each call takes and returns. Handles are numbers.
use lwip_server.Base.{ℕ, Bool, Option, none, some, List}

abbrev pub s_wait_forever : ℕ
s_wait_forever = 0xFFFFFFFF

pub record Kernel : Type 1 where
  pub World : Type 0
  -- `pdMS_TO_TICKS`.
  pub ms_to_ticks : ℕ → ℕ
  pub semaphore_create_mutex : World → ℕ × World
  pub semaphore_take : ℕ → ℕ → World → Bool × World
  pub semaphore_give : ℕ → World → Bool × World
  -- The size and the trigger level; what is received, and how much is sent.
  pub stream_buffer_create : ℕ → ℕ → World → ℕ × World
  pub stream_buffer_receive : ℕ → ℕ → ℕ → World → List ℕ × World
  pub stream_buffer_send : ℕ → List ℕ → ℕ → World → ℕ × World
  -- The function that the task runs, its name, the size of its stack and its priority.
  pub task_create : (World → World) → List ℕ → ℕ → ℕ → World → ℕ × World
  -- The calling task deletes itself.
  pub task_delete : World → World

module _ (kernel : Kernel) where
  open kernel use {World}

  pub record Mutex : Type 0 where
    pub handle : ℕ

  abbrev new_mutex : World → Mutex × World
  new_mutex w = let (h, w1) = kernel.semaphore_create_mutex w in (record { handle = h }, w1)

  abbrev lock : Mutex → ℕ → World → Bool × World
  lock m wait_ms w = kernel.semaphore_take m.handle (kernel.ms_to_ticks wait_ms) w

  abbrev unlock : Mutex → World → Bool × World
  unlock m w = kernel.semaphore_give m.handle w

  pub record StreamBuffer : Type 0 where
    pub stream_handle : ℕ

  abbrev new_stream_buffer : ℕ → ℕ → World → StreamBuffer × World
  new_stream_buffer size trigger w =
      let (h, w1) = kernel.stream_buffer_create size trigger w in (record { stream_handle = h }, w1)

  -- At most `size` bytes.
  abbrev receive : StreamBuffer → ℕ → ℕ → World → List ℕ × World
  receive b size wait_ms w =
      kernel.stream_buffer_receive b.stream_handle size (kernel.ms_to_ticks wait_ms) w

  abbrev send : StreamBuffer → List ℕ → ℕ → World → ℕ × World
  send b bytes wait_ms w =
      kernel.stream_buffer_send b.stream_handle bytes (kernel.ms_to_ticks wait_ms) w

  pub record OsTask : Type 0 where
    pub task_handle : Option ℕ
    pub name : List ℕ
    pub task_function : Option (World → World)

  abbrev new_task : List ℕ → OsTask
  new_task n = record { task_handle = none; name = n; task_function = none }

  abbrev run_function : Option (World → World) → World → World
  run_function none w = w
  run_function (some f) w = f w

  abbrev task_wrapper : OsTask → World → World
  task_wrapper t w = kernel.task_delete (run_function t.task_function w)

  abbrev create : ℕ → OsTask → (World → World) → ℕ → World → OsTask × World
  create stack_size t f priority w =
      let t1 = record t { task_function = some f } in
      let (h, w1) = kernel.task_create (task_wrapper t1) t1.name stack_size priority w in
      (record t1 { task_handle = some h }, w1)
