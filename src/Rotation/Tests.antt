-- ===== src/Rotation/Tests.antt =====
-- The theorems on the rotation of the panes of display/threads/ui.c at concrete rounds.
use ttds.Prelude.{ℕ, ◌≡◌, ◌≤◌, true, false, refl, some, List, [], ◌∷◌, arith}
use ttds.Prelude.Int.{ℤ, pos, ◌+ℤ◌, ◌-ℤ◌}
use ttds.Prelude.Text.{length}
use ttds.Prelude.Run.{done}
use ttds.Panes.{Pane}
use ttds.Panes.Tests.{root_pane, one_pane, one_pane-Represents}
use ttds.Rotation.{
  SleepResult, should_sync, Wake, initial, next_index, elapsed, delta, cancellable_sleep,
  rotate_round, rotate_panes, ui_thread,
}
use ttds.Rotation.Sleep.{Monotonic, Slept, cancellable_sleep-Slept, no_more, sync, Syncs-length}
use ttds.Rotation.Ends.{IsUsual, Cancels, twice, before, ui_thread-frees}
use ttds.Rotation.Turns.{Shown, InTurn, repeat, switched, rotate_round-Shown, rotate_panes-InTurn}

-- A request after 7 milliseconds.
abbrev request : Wake
request = record { poll_ok = true; cancelled = false; synced = true; prior = 100; post = 107 }

request-Monotonic : Monotonic request
request-Monotonic = record { forward = omega arith; short = omega arith }

abbrev timeout : Wake
timeout = record { poll_ok = true; cancelled = false; synced = false; prior = 100; post = 5100 }

cancellable_sleep-Slept_example :
    (r : SleepResult) × (time : ℤ) × (cancellable_sleep request (pos 5000) ≡ done (r, time))
    × Slept 5000 r time
cancellable_sleep-Slept_example = cancellable_sleep-Slept request 5000 refl request-Monotonic

one_request : cancellable_sleep request (pos 5000) ≡ done (should_sync, pos 4973)
unfolding cancellable_sleep delta elapsed ◌+ℤ◌ ◌-ℤ◌
one_request = refl

Syncs-length_example : length (request ∷ []) ≤ 248
Syncs-length_example =
    Syncs-length (request ∷ []) 4973 (sync refl request-Monotonic one_request no_more)

rotate_round-Shown_example :
    Shown (root_pane ∷ []) (next_index 1 initial) 5000 (rotate_round one_pane request initial)
rotate_round-Shown_example =
    rotate_round-Shown one_pane (root_pane ∷ []) request initial 5000 one_pane-Represents
      (omega arith) refl refl request-Monotonic

rotate_panes-InTurn_example :
    (shown : List Pane) × (j : ℕ) × (rotate_panes (repeat 3 (one_pane, timeout)) (switched 0)
      ≡ done (shown, some (switched j)))
    × (length shown ≡ 3)
    × InTurn (root_pane ∷ []) 0 shown
rotate_panes-InTurn_example =
    rotate_panes-InTurn 3 one_pane (root_pane ∷ []) timeout 0 one_pane-Represents (omega arith) refl
      (refl, refl)

-- The byte that ends the thread is there after 30 milliseconds.
abbrev cancel : Wake
cancel = record { poll_ok = true; cancelled = true; synced = false; prior = 100; post = 130 }

one_pane-IsUsual : (wake : Wake) → wake.poll_ok ≡ true → Monotonic wake → IsUsual (one_pane, wake)
one_pane-IsUsual wake ok mono = record {
  panes = root_pane ∷ [];
  represents = one_pane-Represents;
  some_pane = omega arith;
  poll_ok = ok;
  monotonic = mono;
}

cancel-IsUsual : IsUsual (one_pane, cancel)
cancel-IsUsual =
    one_pane-IsUsual cancel refl (record { forward = omega arith; short = omega arith })

cancel-Cancels : Cancels ((one_pane, request) ∷ (one_pane, cancel) ∷ (one_pane, cancel) ∷ [])
cancel-Cancels =
    before (one_pane-IsUsual request refl request-Monotonic)
      (twice cancel-IsUsual refl cancel-IsUsual refl)

ui_thread-frees_example :
    (shown : List Pane) × (ui_thread true true true
        ((one_pane, request) ∷ (one_pane, cancel) ∷ (one_pane, cancel) ∷ [])
        one_pane
      ≡ done (shown, root_pane ∷ []))
ui_thread-frees_example =
    ui_thread-frees ((one_pane, request) ∷ (one_pane, cancel) ∷ (one_pane, cancel) ∷ []) one_pane
      (root_pane ∷ []) cancel-Cancels one_pane-Represents
