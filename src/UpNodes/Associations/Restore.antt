-- ===== src/UpNodes/Associations/Restore.antt =====
-- How `sx_session_restore_procedure` of src/oai_spgwc/pgwc_procedure.cpp cuts the sessions into
-- messages.
use openair_spgwc.Prelude.{
  ◌+◌, ◌/◌, ◌≤◌, ◌<◌, ◌≡◌, refl, List, [], ◌∷◌, ◌++◌, length, length-append, append-append,
  append-nil, arith,
}
use openair_spgwc.UpNodes.Fseid.{Fseid}
use openair_spgwc.UpNodes.Associations.{restore_messages}

abbrev pub concat : List (List Fseid) → List Fseid
concat [] = []
concat (m ∷ ms) = m ++ concat ms

-- Each message has between one and 64 sessions.
abbrev pub AllFit : List (List Fseid) → Type 0
AllFit [] = Unit {0}
AllFit (m ∷ ms) = (1 ≤ length m) × (length m ≤ 64) × AllFit ms

concat-restore_messages : (xs msg : List Fseid) → concat (restore_messages xs msg) ≡ msg ++ xs
unfolding restore_messages
concat-restore_messages [] [] = refl
concat-restore_messages [] (f ∷ fs) = ground (arith, append-nil fs)
concat-restore_messages (x ∷ xs) msg =
    let full = concat-restore_messages xs [] in
    let more = concat-restore_messages xs (msg ++ (x ∷ [])) in
    ground (arith, full, more, append-append msg (x ∷ []) xs, append-nil (msg ++ (x ∷ [])))

restore_messages-AllFit : (xs msg : List Fseid) → length msg < 64 → AllFit (restore_messages xs msg)
unfolding restore_messages
restore_messages-AllFit [] [] lt = tt
restore_messages-AllFit [] (f ∷ fs) lt = (omega arith, omega arith, tt)
restore_messages-AllFit (x ∷ xs) msg lt =
    let full = restore_messages-AllFit xs [] (omega arith) in
    let more = restore_messages-AllFit xs (msg ++ (x ∷ [])) in
    ground (arith, full, more, length-append msg (x ∷ []))

length-restore_messages :
    (xs msg : List Fseid)
    → length msg < 64
    → length (restore_messages xs msg) ≡ (length msg + length xs + 63) / 64
unfolding restore_messages
length-restore_messages [] [] lt = omega arith
length-restore_messages [] (f ∷ fs) lt = omega arith
length-restore_messages (x ∷ xs) msg lt =
    let full = length-restore_messages xs [] (omega arith) in
    let more = length-restore_messages xs (msg ++ (x ∷ [])) in
    ground (arith, full, more, length-append msg (x ∷ []))

-- The messages that restore the sessions of an association name every session, once and in order;
-- each has between one and 64 of them, and there are no more messages than that takes.
pub restore_messages-concat :
    (xs : List Fseid)
    → (concat (restore_messages xs []) ≡ xs)
      × AllFit (restore_messages xs [])
      × (length (restore_messages xs []) ≡ (length xs + 63) / 64)
restore_messages-concat xs =
    let count = length-restore_messages xs [] (omega arith) in
    (concat-restore_messages xs [], restore_messages-AllFit xs [] (omega arith), omega arith)
