-- ===== src/Termination/Tests.antt =====
-- The theorem on display/threads/termination.c at the four threads of display/main.c.
use ttds.Prelude.{◌≡◌, none, some, leb, if◌then◌else◌}
use ttds.Termination.{Termination, term, term_init, term_block}
use ttds.Termination.Wakes.{blocks, term-blocks}

abbrev unset : Termination
unset = record { num_waiting = 0; value = 0 }

term-blocks_example :
    (term_block (term_init 4 unset) ≡ none)
    × (blocks 3 (term (term_init 4 unset))
        ≡ (if leb 3 4 then some (record { num_waiting = 4; value = 1 }) else none))
term-blocks_example = term-blocks unset 4 3
