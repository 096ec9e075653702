-- ===== src/Examples/Tasks.antt =====
-- Two tasks of src/itti/itti.cpp, of which one is ready and has a message.
use openair_spgwc.Prelude.{ℕ, ◌≡◌, List, [], ◌∷◌, ◌++◌, refl, arith, length}
use openair_spgwc.Prelude.StdMap.{nat_key, find}
use openair_spgwc.Tasks.{Message, TaskCtxt, starting, ready}
use openair_spgwc.Tasks.Queues.{addressed, send_all, poll_all, send_all-poll_all}

abbrev to : ℕ → ℕ → Message
to t n = record { origin = 1; destination = t; msg_num = n; msg_type = 0 }

abbrev two_tasks : List (ℕ × TaskCtxt)
two_tasks =
    (4, record { task_state = ready; msg_queue = to 4 0 ∷ [] })
    ∷ (5, record { task_state = starting; msg_queue = [] })
    ∷ []

abbrev three : List Message
three = to 4 1 ∷ to 5 2 ∷ to 4 3 ∷ []

send_all-poll_all_example :
    poll_all (length ((to 4 0 ∷ []) ++ addressed 4 three)) 4 (send_all three two_tasks)
    ≡ (to 4 0 ∷ []) ++ addressed 4 three
unfolding find
send_all-poll_all_example =
    send_all-poll_all 4 (to 4 0 ∷ []) three two_tasks (omega arith) refl
      (omega arith, (omega arith, (omega arith, tt)))
