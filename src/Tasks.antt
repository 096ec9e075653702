-- ===== src/Tasks.antt =====
-- The tasks and message queues of src/itti/itti.hpp and src/itti/itti.cpp. The contexts of the tasks
-- are a map from their numbers; a number without one is the null pointer. Each function is one step
-- under the locks that it takes. Logging and condition variables are left out.
pub mod Queues
use openair_spgwc.Prelude.{
  ℕ, zero, suc, ◌+◌, Bool, true, false, Option, none, some, List, [], ◌∷◌, ◌++◌, if◌then◌else◌, ltb,
  ◌==◌, ◌&&◌,
}
use openair_spgwc.Prelude.StdMap.{nat_key, find, assign}
use openair_spgwc.Timers.{ReturnCode, return_ok, return_error, task_max}

pub data TaskState : Type 0 where
  not_configured starting ready ended : TaskState

pub record Message : Type 0 where
  pub origin : ℕ
  pub destination : ℕ
  pub msg_num : ℕ
  pub msg_type : ℕ

pub record TaskCtxt : Type 0 where
  pub task_state : TaskState
  pub msg_queue : List Message

abbrev pub task_all : ℕ
task_all = 255

-- The constructor of `itti_task_ctxt`.
unfoldable pub new_task_ctxt : TaskCtxt
new_task_ctxt = record { task_state = starting; msg_queue = [] }

-- Up to the start of the thread; then the call waits for the task to be ready. The flag says whether
-- there is a start routine.
unfoldable pub create_task : Bool → ℕ → List (ℕ × TaskCtxt) → ReturnCode × List (ℕ × TaskCtxt)
unfolding new_task_ctxt
create_task start_routine task_id ctxts =
    if start_routine && ltb task_id task_max
    then (elim (find task_id ctxts) [
      | none ↦ (return_ok, assign task_id new_task_ctxt ctxts)
      | some c ↦ (return_error, ctxts)
    ])
    else (return_error, ctxts)

-- The source reads its array without a test of the number; a number beyond it has no context here.
unfoldable pub notify_task_ready : ℕ → List (ℕ × TaskCtxt) → ReturnCode × List (ℕ × TaskCtxt)
notify_task_ready task_id ctxts = elim (find task_id ctxts) [
  | none ↦ (return_error, ctxts)
  | some c ↦ elim c.task_state [
    | starting ↦ (return_ok, assign task_id (record c { task_state = ready }) ctxts)
    | not_configured ↦ (return_error, ctxts)
    | ready ↦ (return_error, ctxts)
    | ended ↦ (return_error, ctxts)
  ]
]

-- `msg_queue.push(message)` for a task that is ready; the flag says whether it is.
unfoldable pub push : ℕ → Message → List (ℕ × TaskCtxt) → Bool × List (ℕ × TaskCtxt)
push t m ctxts = elim (find t ctxts) [
  | none ↦ (false, ctxts)
  | some c ↦ elim c.task_state [
    | ready ↦ (true, assign t (record c { msg_queue = c.msg_queue ++ (m ∷ []) }) ctxts)
    | not_configured ↦ (false, ctxts)
    | starting ↦ (false, ctxts)
    | ended ↦ (false, ctxts)
  ]
]

-- The loop over the tasks from `t` on, of which there are `fuel`.
unfoldable pub push_all : ℕ → ℕ → Message → List (ℕ × TaskCtxt) → List (ℕ × TaskCtxt)
push_all zero t m ctxts = ctxts
push_all (suc fuel) t m ctxts = push_all fuel (t + 1) m (push t m ctxts).1

unfoldable pub send_broadcast_msg : Message → List (ℕ × TaskCtxt) → ReturnCode × List (ℕ × TaskCtxt)
send_broadcast_msg m ctxts =
    if m.destination == task_all
    then (return_ok, push_all task_max 0 m ctxts)
    else (return_error, ctxts)

unfoldable pub send_msg : Message → List (ℕ × TaskCtxt) → ReturnCode × List (ℕ × TaskCtxt)
unfolding send_broadcast_msg
send_msg m ctxts =
    if ltb m.destination task_max
    then (let (ok, ctxts') = push m.destination m ctxts in
        (if ok then return_ok else return_error, ctxts'))
    else if m.destination == task_all
    then send_broadcast_msg m ctxts
    else (return_error, ctxts)

-- `none` is the null pointer. `receive_msg` does the same as soon as the queue has a message.
unfoldable pub poll_msg : ℕ → List (ℕ × TaskCtxt) → Option Message × List (ℕ × TaskCtxt)
poll_msg task_id ctxts =
    if ltb task_id task_max
    then (elim (find task_id ctxts) [
      | none ↦ (none, ctxts)
      | some c ↦ elim c.msg_queue [
        | [] ↦ (none, ctxts)
        | m ∷ ms ↦ (some m, assign task_id (record c { msg_queue = ms }) ctxts)
      ]
    ])
    else (none, ctxts)
