-- ===== src/Boot/Tasks.antt =====
-- kernel/src/main.rs: the task contexts and their registration on the two cores.
use cerberus_os.Base.{
  ℕ, ◌≡◌, refl, true, false, List, ◌∷◌, String, replicate, ◌==◌, update, Bool-cases, inl, inr, some,
  Option, ◌<◌, lt→ltb, arith, ==_refl,
}
use cerberus_os.Base.Outcome.{Outcome, done, ◌>>=◌}
use cerberus_os.Base.Ending.{Makes, makes, make_bind, make_weaken}
use cerberus_os.Scheduler.Tcb.{Capability, no_cap, mutex, ipc, ready, TaskControlBlock}
use cerberus_os.Scheduler.Bitmap.{BitMapScheduler, register_task, is_ready}
use cerberus_os.Scheduler.Swap.{is_running}
use cerberus_os.Trap.State.{Hart, hart0, hart1, set_hart, Core}
use cerberus_os.Boot.Image.{Image}
use cerberus_os.Boot.Stack.{initialize_stack}

abbrev pub stack_size : ℕ
stack_size = 1024

-- A task as it is registered: ready, on its first frame.
abbrev pub first_task : ℕ → ℕ → String → List Capability → TaskControlBlock
first_task sp prio name caps = record {
  saved_sp = sp;
  priority = prio;
  active_priority = prio;
  state = ready;
  name = name;
  capabilities = caps;
}

abbrev pub no_caps : List Capability
no_caps = replicate 8 no_cap

abbrev pub caps_a : List Capability
caps_a =
    mutex 0 true true ∷ ipc 0 true false ∷ ipc 2 true false ∷ ipc 3 false true ∷ replicate 4 no_cap

abbrev pub caps_b : List Capability
caps_b = ipc 0 false true ∷ replicate 7 no_cap

abbrev pub caps_c : List Capability
caps_c = mutex 0 true true ∷ replicate 7 no_cap

abbrev pub caps_hsm : List Capability
caps_hsm = ipc 2 false true ∷ ipc 3 true false ∷ replicate 6 no_cap

-- `scheds[h].register_task(…)`
unfoldable pub add_task : Hart → TaskControlBlock → Core → Outcome Core
add_task h t c =
    register_task (c.scheds h) t >>= λ s. done (record c { scheds = set_hart c.scheds h s })

-- First every stack, then every registration.
unfoldable pub init_tasks : Image → Core → Outcome Core
init_tasks img c =
    let (sp_wd, m_wd) =
      initialize_stack (img.layout.wd_stack) stack_size img.watchdog_task c.memory in
    let (sp_a, m_a) = initialize_stack (img.layout.a_stack) stack_size img.task_a m_wd in
    let (sp_b, m_b) = initialize_stack (img.layout.b_stack) stack_size img.task_b m_a in
    let (sp_c, m_c) = initialize_stack (img.layout.c_stack) stack_size img.task_c m_b in
    let (sp_hsm, m_hsm) = initialize_stack (img.layout.hsm_stack) stack_size img.hsm_task m_c in
    let (sp_idle_0, m_idle_0) =
      initialize_stack (img.idle_stack hart0) stack_size img.idle_task m_hsm in
    let (sp_idle_1, m_idle_1) =
      initialize_stack (img.idle_stack hart1) stack_size img.idle_task m_idle_0 in
    add_task hart0 (first_task sp_wd 0 "Watchdog" no_caps) (record c { memory = m_idle_1 })
    >>= λ c1. add_task hart0 (first_task sp_a 1 "Task A" caps_a) c1 >>= λ c2.
        add_task hart0 (first_task sp_hsm 4 "HSM Task" caps_hsm) c2 >>= λ c3.
        add_task hart0 (first_task sp_idle_0 31 "Idle 0" no_caps) c3 >>= λ c4.
        add_task hart1 (first_task sp_b 2 "Task B" caps_b) c4 >>= λ c5.
        add_task hart1 (first_task sp_c 3 "Task C" caps_c) c5 >>= λ c6.
        add_task hart1 (first_task sp_idle_1 31 "Idle 1" no_caps) c6

-- No task runs.
abbrev pub IsIdle : Core → Type 0
IsIdle c = (h : Hart) (j : ℕ) → is_running ((c.scheds h).task_table j) ≡ false

-- A task of the core is ready.
abbrev pub CanStart : Hart → Core → Type 0
CanStart h c = (j : ℕ) × (j < 32) × (is_ready ((c.scheds h).task_table j) ≡ true)

updated-idle :
    (table : ℕ → Option TaskControlBlock) (t : TaskControlBlock) (i j : ℕ)
    → is_running (some t) ≡ false
    → is_running (table j) ≡ false
    → is_running (update table i (some t) j) ≡ false
updated-idle table t i j e h = elim (Bool-cases (i == j)) [
  | inl same ↦ rw same e
  | inr other ↦ rw other h
]

updated-ready :
    (table : ℕ → Option TaskControlBlock) (t : TaskControlBlock) (i j : ℕ)
    → is_ready (some t) ≡ true
    → is_ready (table j) ≡ true
    → is_ready (update table i (some t) j) ≡ true
updated-ready table t i j e h = elim (Bool-cases (i == j)) [
  | inl same ↦ rw same e
  | inr other ↦ rw other h
]

-- A registration: no task runs, the cores that could start still can, and this one can.
pub record IsAdded (h : Hart) (c c' : Core) : Type 0 where
  pub idle : IsIdle c → IsIdle c'
  pub others : (h' : Hart) → CanStart h' c → CanStart h' c'
  pub here : CanStart h c'

pub add_task-IsAdded :
    (h : Hart) (sp prio : ℕ) (name : String) (caps : List Capability) (c : Core)
    → prio < 32
    → Makes (IsAdded h c) (add_task h (first_task sp prio name caps) c)
unfolding add_task register_task
add_task-IsAdded h sp prio name caps c lt =
    rw (lt→ltb prio 32 lt) (makes (record { idle = idle h; others = others h; here = here h }))
  where
    t : TaskControlBlock
    t = first_task sp prio name caps

    put : Hart → Hart → BitMapScheduler
    put h =
        set_hart c.scheds h
          (record (c.scheds h) { task_table = update (c.scheds h).task_table prio (some t) })

    idle :
        (h : Hart) → IsIdle c → (h' : Hart) (j : ℕ) → is_running ((put h h').task_table j) ≡ false
    idle hart0 e hart0 j = updated-idle (c.scheds hart0).task_table t prio j refl (e hart0 j)
    idle hart0 e hart1 j = e hart1 j
    idle hart1 e hart0 j = e hart0 j
    idle hart1 e hart1 j = updated-idle (c.scheds hart1).task_table t prio j refl (e hart1 j)

    others :
        (h h' : Hart)
        → CanStart h' c
        → (j : ℕ) × (j < 32) × (is_ready ((put h h').task_table j) ≡ true)
    others hart0 hart0 (j, lt, r) =
        (j, lt, updated-ready (c.scheds hart0).task_table t prio j refl r)
    others hart0 hart1 s = s
    others hart1 hart0 s = s
    others hart1 hart1 (j, lt, r) =
        (j, lt, updated-ready (c.scheds hart1).task_table t prio j refl r)

    here : (h : Hart) → (j : ℕ) × (j < 32) × (is_ready ((put h h).task_table j) ≡ true)
    here hart0 = (prio, lt, rw (==_refl prio) refl)
    here hart1 = (prio, lt, rw (==_refl prio) refl)

-- No task runs, and both cores can start.
pub record IsBootable (c : Core) : Type 0 where
  pub idle : IsIdle c
  pub can_start : (h : Hart) → CanStart h c

pub both : (P : Hart → Type 0) → P hart0 → P hart1 → (h : Hart) → P h
both P p q hart0 = p
both P p q hart1 = q

pub init_tasks-IsBootable :
    (img : Image) (c : Core) → IsIdle c → Makes IsBootable (init_tasks img c)
unfolding init_tasks
init_tasks-IsBootable img c idle =
    make_bind _ (add_task-IsAdded hart0 _ 0 _ _ _ (omega arith)) (λ c1 a1.
      make_bind _ (add_task-IsAdded hart0 _ 1 _ _ c1 (omega arith)) (λ c2 a2.
        make_bind _ (add_task-IsAdded hart0 _ 4 _ _ c2 (omega arith)) (λ c3 a3.
          make_bind _ (add_task-IsAdded hart0 _ 31 _ _ c3 (omega arith)) (λ c4 a4.
            make_bind _ (add_task-IsAdded hart1 _ 2 _ _ c4 (omega arith)) (λ c5 a5.
              make_bind _ (add_task-IsAdded hart1 _ 3 _ _ c5 (omega arith)) (λ c6 a6.
                make_weaken (add_task-IsAdded hart1 _ 31 _ _ c6 (omega arith)) (λ c7 a7. record {
                  idle = a7.idle (a6.idle (a5.idle (a4.idle (a3.idle (a2.idle (a1.idle idle))))));
                  can_start =
                      both (λ h. CanStart h c7)
                        (a7.others hart0 (a6.others hart0 (a5.others hart0 a4.here))) a7.here;
                })))))))
