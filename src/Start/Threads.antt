-- ===== src/Start/Threads.antt =====
-- The threads of the program with the backend of display/rendering/drm: `main` of display/main.c from
-- `term_init` to its end; the three threads that it starts, as far as they meet at the semaphore of
-- display/threads/termination.c, tell their workers to stop and join them; and the workers
-- (`rotate_panes`, `event_loop` and `cmd_inner`), as far as they find the byte that ends them. A turn
-- that would block is `none`. The calls of `pthread_create` and `write` succeed.
pub mod Pairs
pub mod Places
pub mod Turns
pub mod Ends
pub mod Stuck
use package.ttds.Prelude.{
  ℕ, Bool, true, false, List, [], ◌∷◌, Option, none, some, ◌==◌, if◌then◌else◌,
}
use package.ttds.Termination.{Termination, term, term_init, term_block}

-- A thread before `pthread_create`, up to its call of `term_block`, before the `write` that tells its
-- worker to stop, at `pthread_join`, and at its end.
pub data Phase : Type 0 where
  unborn waiting woken joining over : Phase

-- The thread that another one starts: before that, at `poll`, between two polls, and at its end.
-- Between two polls the rotation goes on to a pane without a poll, and the reader is in `fgets`.
pub data Worker : Type 0 where
  absent polling busy ended : Worker

pub record Pair : Type 0 where
  pub parent : Phase
  pub worker : Worker

-- `ui_thread`, `drm_input_thread` or `cmd_thread` goes on, with its worker as it is.
unfoldable pub parent_step : Termination → Worker → Phase → Option (Phase × Termination)
unfolding term_block
parent_step t w unborn = none
parent_step t w waiting = elim (term_block t) [ none ↦ none | some t' ↦ some (woken, t') ]
parent_step t w woken = some (joining, t)
parent_step t absent joining = none
parent_step t polling joining = none
parent_step t busy joining = none
parent_step t ended joining = some (over, t)
parent_step t w over = none

-- Whether the byte that ends the worker is in its pipe.
abbrev pub is_told : Phase → Bool
is_told unborn = false
is_told waiting = false
is_told woken = false
is_told joining = true
is_told over = true

-- A worker goes on. The first flag is whether it is told to stop, which `poll` finds before anything
-- else; the second whether what it waits for has come: an event at `poll`, a line in `fgets`.
unfoldable pub worker_step : Bool → Bool → Worker → Option Worker
worker_step told ready absent = none
worker_step true ready polling = some ended
worker_step false true polling = some busy
worker_step false false polling = none
worker_step told true busy = some polling
worker_step told false busy = none
worker_step told ready ended = none

-- Which of the two goes on.
pub data Side : Type 0 where
  parent_side : Side
  worker_side : Bool → Side

abbrev pub with_worker : Pair → Termination → Option Worker → Option (Pair × Termination)
with_worker pr t none = none
with_worker pr t (some w) = some (record pr { worker = w }, t)

abbrev pub with_parent : Pair → Option (Phase × Termination) → Option (Pair × Termination)
with_parent pr none = none
with_parent pr (some r) = some (record pr { parent = r.0 }, r.1)

unfoldable pub pair_step : Side → Termination → Pair → Option (Pair × Termination)
unfolding parent_step worker_step
pair_step parent_side t pr = with_parent pr (parent_step t pr.worker pr.parent)
pair_step (worker_side ready) t pr =
    with_worker pr t (worker_step (is_told pr.parent) ready pr.worker)

-- Where `main` stands.
pub data Place : Type 0 where
  spawn_ui spawn_input spawn_cmd blocking join_input join_ui join_cmd returned : Place

pub record Program : Type 0 where
  pub place : Place
  pub ui : Pair
  pub input : Pair
  pub cmd : Pair
  pub termination : Termination

-- A thread right after `pthread_create`: it starts its worker before it waits.
abbrev pub born : Pair
born = record { parent = waiting; worker = polling }

abbrev pub not_born : Pair
not_born = record { parent = unborn; worker = absent }

abbrev pub sigint : ℕ
sigint = 2

-- `pthread_join` on a thread, with what comes then.
abbrev pub join : Phase → Program → Option Program
join unborn p = none
join waiting p = none
join woken p = none
join joining p = none
join over p = some p

-- `main` goes on; the number is the signal that `sigwait` returns, where it waits for one.
unfoldable pub main_step : ℕ → Place → Program → Option Program
unfolding term
main_step s spawn_ui p = some (record p { place = spawn_input; ui = born })
main_step s spawn_input p = some (record p { place = spawn_cmd; input = born })
main_step s spawn_cmd p = some (record p { place = blocking; cmd = born })
main_step s blocking p =
    if s == sigint
    then some (record p { place = join_input; termination = term p.termination })
    else some p
main_step s join_input p = join p.input.parent (record p { place = join_ui })
main_step s join_ui p = join p.ui.parent (record p { place = join_cmd })
main_step s join_cmd p = join p.cmd.parent (record p { place = returned })
main_step s returned p = none

-- Which thread goes on.
pub data Turn : Type 0 where
  main_turn : ℕ → Turn
  ui_turn input_turn cmd_turn : Side → Turn

abbrev pub resume : Option (Pair × Termination) → (Pair × Termination → Program) → Option Program
resume none f = none
resume (some r) f = some (f r)

unfoldable pub step : Turn → Program → Option Program
unfolding pair_step main_step
step (main_turn s) p = main_step s p.place p
step (ui_turn side) p =
    resume (pair_step side p.termination p.ui) (λ r. record p { ui = r.0; termination = r.1 })
step (input_turn side) p =
    resume (pair_step side p.termination p.input) (λ r. record p { input = r.0; termination = r.1 })
step (cmd_turn side) p =
    resume (pair_step side p.termination p.cmd) (λ r. record p { cmd = r.0; termination = r.1 })

-- `main` right after `term_init(4)`.
unfoldable pub started : Termination → Program
unfolding term_init
started t = record {
  place = spawn_ui;
  ui = not_born;
  input = not_born;
  cmd = not_born;
  termination = term_init 4 t;
}

-- A turn that would block changes nothing.
abbrev pub go : Option Program → Program → Program
go none p = p
go (some q) p = q

-- The threads take turns in any order.
unfoldable pub run_turns : List Turn → Program → Program
unfolding step
run_turns [] p = p
run_turns (turn ∷ turns) p = run_turns turns (go (step turn p) p)
