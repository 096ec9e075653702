-- ===== src/Tasks/Queues.antt =====
-- What the queues of src/itti/itti.cpp do with messages: they keep their order, and a broadcast
-- reaches the tasks that are ready.
use openair_spgwc.Prelude.{
  ℕ, zero, suc, ◌+◌, ◌<◌, ◌≡◌, inl, inr, ◌∙◌, refl, true, Option, none, some, List, [], ◌∷◌, ◌++◌,
  if◌then◌else◌, ltb, leb, ◌==◌, ◌&&◌, arith, Option-cases, Bool-cases, length, append-nil,
  append-append,
}
use openair_spgwc.Prelude.StdMap.{nat_key, find, assign, find-assign}
use openair_spgwc.Timers.{return_ok, return_error, task_max}
use openair_spgwc.Tasks.{
  create_task, new_task_ctxt, notify_task_ready, not_configured, starting, ready, ended, Message,
  TaskCtxt, task_all, push, push_all, send_broadcast_msg, send_msg, poll_msg,
}

-- A task's context with one more message, if the task is ready.
abbrev pub delivered : Message → Option TaskCtxt → Option TaskCtxt
delivered m none = none
delivered m (some c) = elim c.task_state [
  | ready ↦ some (record c { msg_queue = c.msg_queue ++ (m ∷ []) })
  | not_configured ↦ some c
  | starting ↦ some c
  | ended ↦ some c
]

find-push :
    (t j : ℕ) (m : Message) (ctxts : List (ℕ × TaskCtxt))
    → find j (push t m ctxts).1 ≡ (if t == j then delivered m (find j ctxts) else find j ctxts)
unfolding push
find-push t j m ctxts = elim (Option-cases (find t ctxts)) [
  | inl e ↦ ground arith
  | inr (c, e) ↦
      ground (arith, find-assign t j (record c { msg_queue = c.msg_queue ++ (m ∷ []) }) ctxts)
]

find-push_all :
    (fuel t j : ℕ) (m : Message) (ctxts : List (ℕ × TaskCtxt))
    → find j (push_all fuel t m ctxts)
      ≡ (if leb t j && ltb j (t + fuel) then delivered m (find j ctxts) else find j ctxts)
unfolding push_all
find-push_all zero t j m ctxts = ground arith
find-push_all (suc fuel) t j m ctxts =
    find-push_all fuel (t + 1) j m (push t m ctxts).1 ∙ rw (find-push t j m ctxts) (ground arith)

-- A broadcast succeeds, and puts the message at the end of the queue of each task that is ready; the
-- other tasks stay as they are.
pub broadcast_reaches_ready :
    (m : Message) (j : ℕ) (ctxts : List (ℕ × TaskCtxt))
    → m.destination ≡ task_all
    → ((send_msg m ctxts).0 ≡ return_ok)
      × (find j (send_msg m ctxts).1
          ≡ (if ltb j task_max then delivered m (find j ctxts) else find j ctxts))
unfolding send_msg send_broadcast_msg
broadcast_reaches_ready m j ctxts e =
    (ground arith, ground (arith, find-push_all task_max 0 j m ctxts))

-- Messages sent one after the other.
pub send_all : List Message → List (ℕ × TaskCtxt) → List (ℕ × TaskCtxt)
send_all [] ctxts = ctxts
send_all (m ∷ ms) ctxts = send_all ms (send_msg m ctxts).1

-- What `n` calls of `poll_msg` give.
pub poll_all : ℕ → ℕ → List (ℕ × TaskCtxt) → List Message
poll_all zero t ctxts = []
poll_all (suc n) t ctxts =
    let rest = poll_all n t (poll_msg t ctxts).1 in
    elim (poll_msg t ctxts).0 [ none ↦ [] | some m ↦ m ∷ rest ]

-- All messages are for single tasks.
abbrev pub AreUnicast : List Message → Type 0
AreUnicast [] = Unit {0}
AreUnicast (m ∷ ms) = (m.destination < task_max) × AreUnicast ms

-- Those for the task `t`.
abbrev pub addressed : ℕ → List Message → List Message
addressed t [] = []
addressed t (m ∷ ms) = if m.destination == t then m ∷ addressed t ms else addressed t ms

find-send_msg :
    (m : Message) (j : ℕ) (ctxts : List (ℕ × TaskCtxt))
    → m.destination < task_max
    → find j (send_msg m ctxts).1
      ≡ (if m.destination == j then delivered m (find j ctxts) else find j ctxts)
unfolding send_msg
find-send_msg m j ctxts lt = ground (arith, find-push m.destination j m ctxts)

find-send_all :
    (t : ℕ) (q ms : List Message) (ctxts : List (ℕ × TaskCtxt))
    → find t ctxts ≡ some (record { task_state = ready; msg_queue = q })
    → AreUnicast ms
    → find t (send_all ms ctxts)
      ≡ some (record { task_state = ready; msg_queue = q ++ addressed t ms })
unfolding send_all
find-send_all t q [] ctxts e u = ground (arith, append-nil q)
find-send_all t q (m ∷ ms) ctxts e (lt, u) = elim (Bool-cases (m.destination == t)) [
  | inl to ↦ rw to (
      find-send_all t (q ++ (m ∷ [])) ms (send_msg m ctxts).1
        (ground (arith, find-send_msg m t ctxts lt)) u
      ∙ ground (arith, append-append q (m ∷ []) (addressed t ms)))
  | inr other ↦
      rw other
        (find-send_all t q ms (send_msg m ctxts).1 (ground (arith, find-send_msg m t ctxts lt)) u)
]

poll_all_lem :
    (t : ℕ) (q : List Message) (ctxts : List (ℕ × TaskCtxt))
    → t < task_max
    → find t ctxts ≡ some (record { task_state = ready; msg_queue = q })
    → poll_all (length q) t ctxts ≡ q
unfolding poll_all poll_msg
poll_all_lem t [] ctxts lt e = refl
poll_all_lem t (m ∷ q) ctxts lt e =
    let ctxts' = assign t (record { task_state = ready; msg_queue = q }) ctxts in
    ground (
      arith,
      poll_all_lem t q ctxts' lt,
      find-assign t t (record { task_state = ready; msg_queue = q }) ctxts,
    )

-- Messages for single tasks, sent one after the other: a task that is ready polls those for it, after what
-- was in its queue, in the order in which they were sent.
pub send_all-poll_all :
    (t : ℕ) (q ms : List Message) (ctxts : List (ℕ × TaskCtxt))
    → t < task_max
    → find t ctxts ≡ some (record { task_state = ready; msg_queue = q })
    → AreUnicast ms
    → poll_all (length (q ++ addressed t ms)) t (send_all ms ctxts) ≡ q ++ addressed t ms
send_all-poll_all t q ms ctxts lt e u =
    poll_all_lem t (q ++ addressed t ms) (send_all ms ctxts) lt (find-send_all t q ms ctxts e u)

-- A new task under a free number: while it is starting, a message for it is refused and changes
-- nothing; once it has told that it is ready, its queue is empty, and no other task has changed.
pub create_task-notify_task_ready :
    (t j : ℕ) (m : Message) (ctxts : List (ℕ × TaskCtxt))
    → t < task_max
    → find t ctxts ≡ none
    → m.destination ≡ t
    → let (created, ctxts1) = create_task true t ctxts in
      let (notified, ctxts2) = notify_task_ready t ctxts1 in
      (created ≡ return_ok)
      × (send_msg m ctxts1 ≡ (return_error, ctxts1))
      × (notified ≡ return_ok)
      × (find j ctxts2
          ≡ (if t == j then some (record { task_state = ready; msg_queue = [] }) else find j ctxts))
unfolding create_task new_task_ctxt notify_task_ready send_msg push
create_task-notify_task_ready t j m ctxts lt e d =
    let fresh : TaskCtxt = record { task_state = starting; msg_queue = [] } in
    let there = find-assign t t fresh ctxts in
    let now =
      find-assign t j (record { task_state = ready; msg_queue = [] }) (assign t fresh ctxts) in
    let before = find-assign t j fresh ctxts in
    (ground arith, ground (arith, there), ground (arith, there), ground (arith, there, now, before))
