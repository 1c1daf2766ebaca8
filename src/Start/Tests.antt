-- ===== src/Start/Tests.antt =====
-- The theorems on display/main.c at a command line that names the memory backend in small letters, and
-- at one order in which the threads take turns.
use ttds.Prelude.{◌≡◌, refl, true, false, List, [], ◌∷◌}
use ttds.Prelude.Text.{codes}
use ttds.Rendering.{backend_mem}
use ttds.Start.{Opt, backend_opt, Outcome, run_threads, main}
use ttds.Termination.{Termination, term_init, term, term_block, post_times}
use ttds.Start.Threads.{
  waiting, busy, Program, born, blocking, returned, parent_side, worker_side, Turn, main_turn,
  ui_turn, input_turn, cmd_turn, pair_step, parent_step, worker_step, main_step, step, started,
  run_turns,
}
use ttds.Start.Threads.Stuck.{IsReading, run_turns-IsReading}
use ttds.Start.Threads.Ends.{Ends}
use ttds.Start.Chosen.{Reads, Goes, defaults, main-Goes}

abbrev in_memory : List Opt
in_memory = backend_opt (codes "drm") ∷ backend_opt (codes "mem") ∷ []

main-Goes_example :
    (outcome : Outcome) × Reads in_memory defaults outcome
    × Goes false outcome (main in_memory false)
main-Goes_example = main-Goes in_memory false

last_backend : main in_memory false ≡ run_threads backend_mem
unfolding main
last_backend = refl

-- A signal that is not the one waited for; the reader begins a line; then the end, with the input
-- thread first.
abbrev until_signal : List Turn
until_signal =
    main_turn 0
    ∷ ui_turn parent_side
    ∷ main_turn 0
    ∷ main_turn 0
    ∷ main_turn 1
    ∷ cmd_turn (worker_side true)
    ∷ main_turn 2
    ∷ []

abbrev after_signal : List Turn
after_signal =
    input_turn parent_side
    ∷ input_turn parent_side
    ∷ input_turn (worker_side true)
    ∷ input_turn parent_side
    ∷ main_turn 0
    ∷ cmd_turn parent_side
    ∷ ui_turn parent_side
    ∷ cmd_turn parent_side
    ∷ ui_turn parent_side
    ∷ ui_turn (worker_side true)
    ∷ ui_turn parent_side
    ∷ main_turn 0
    ∷ cmd_turn (worker_side true)
    ∷ cmd_turn (worker_side true)
    ∷ cmd_turn parent_side
    ∷ main_turn 0
    ∷ []

abbrev nothing : Termination
nothing = record { num_waiting = 0; value = 0 }

schedule_returns :
    (run_turns after_signal (run_turns until_signal (started nothing))).place ≡ returned
unfolding run_turns started step main_step pair_step parent_step worker_step term_init term
    term_block post_times
schedule_returns = refl

-- The signal comes while the reader is in the middle of a line.
abbrev reading : Program
reading = record {
  place = blocking;
  ui = born;
  input = born;
  cmd = record { parent = waiting; worker = busy };
  termination = record { num_waiting = 4; value = 0 };
}

reading-reached :
    run_turns
      (main_turn 0 ∷ main_turn 0 ∷ main_turn 0 ∷ cmd_turn (worker_side true) ∷ [])
      (started nothing)
    ≡ reading
unfolding run_turns started step main_step pair_step parent_step worker_step term_init term
    term_block post_times
reading-reached = refl

reading-IsReading : IsReading reading
reading-IsReading = record { reads = refl; not_over = refl; started = refl; not_back = refl }

run_turns-IsReading_example :
    IsReading
      (run_turns (main_turn 2 ∷ cmd_turn parent_side ∷ cmd_turn (worker_side false) ∷ []) reading)
run_turns-IsReading_example =
    run_turns-IsReading (main_turn 2 ∷ cmd_turn parent_side ∷ cmd_turn (worker_side false) ∷ [])
      reading (refl, (refl, (refl, tt))) reading-IsReading
