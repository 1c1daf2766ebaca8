-- ===== src/Lib.antt =====
-- The display program of ttds, a server that shows named panes on a screen and draws on them by
-- commands that it reads from its standard input: C, in the directory display.
--
-- Its parts, and how they work together. display/main.c reads the options and starts the threads. One
-- thread reads lines and runs their commands (display/threads/commands.c): a line names a target and
-- a list of commands, each of which is parsed, looked up in a table and run on the panes. The panes
-- (display/threads/ui.c) are an array of names with canvases behind a mutex; a command creates,
-- removes, draws on, counts or saves them, and a second thread shows them in turn. The drawing
-- functions (display/rendering/canvas.c) write into the pixel buffer of a canvas, through
-- `draw_point` or by copying rows. A backend allocates the canvases and shows them, through the table
-- of display/rendering/rendering.h: display/rendering/mem needs no hardware, display/rendering/drm
-- sets the mode of a screen and flips its two buffers. A third thread
-- (display/rendering/drm/input.c) grabs the keyboards and switches terminals for the keys that ask
-- for it. display/testing.c draws scenes with the drawing functions and saves them.
--
-- The files, each named for what it models:
--   Prelude: the tests on numbers, signed integers (`ℤ`), the outcome of C code (`Run`, with the
--     faults that the standard leaves undefined, and `spent` for fuel that ran out), byte strings,
--     in Differences polynomials in signed integers, and in First the search for the first element that passes a test.
--   Canvas: display/rendering/canvas.h, `canvas_init_bgra` and `draw_point`. A buffer is its size and
--     its bytes, and an access outside it is a fault. Texel has the pixels as a grid, what it means to
--     paint an area (`Paints`) and which canvases may be drawn on (`IsValid`: rows do not overlap, the
--     buffer holds them, and `stride * height` fits 32 bits). Loop has the loops on 16-bit counters;
--     Rect, Copy, Dump, Line, Circle, Triangle and Bezier have the drawing functions of those names,
--     Triangle/Sides the sides of a triangle's edges, and Keeps what they leave of a canvas that is drawn on again.
--   Panes: `struct pane_storage` and the operations of display/threads/ui.c on it. Registry has the
--     list of panes that the array stands for (`Represents`), and Start, Create, Remove and Draw
--     compare each operation with that list; Canvases has the canvases of the list.
--   Commands: the parser of display/threads/commands.c. Scan, Syntax and Total say what it reads.
--     Values has `parse_args`, `parse_color` and `strtol`; Actions the functions `act_...`; Dispatch the
--     tables, `call_action` and `run`; Reader what one line does, `cmd_inner` from `fgets` on; Session
--     the loop of `cmd_inner` and `cmd_thread`. Kept, Stale, Batch and Line say what commands and
--     lines do to the panes, and Hex how colours are read.
--   Rotation: `cancellable_sleep`, `rotate_panes` and `ui_thread` of display/threads/ui.c.
--   Backend: display/rendering/mem/mem.c.
--   Drm: display/rendering/drm/drm.c. Setup chooses the card, the connector, the mode and the CRTC;
--     Screen has the two buffers, the page flip and the canvases.
--   Input: display/rendering/drm/input.c. Sessions has the reply of the login manager and the switch
--     of terminals, Keys the modifiers and `scan_poll`, Devices the keyboards, Thread the event loop
--     and the thread.
--   Rendering: display/rendering/rendering.h and rendering.c, the table as a record of operations
--     (`Vtable`) with its laws (`IsRendering`); Mem and Drm fill them, and Rounds has the panes on any
--     backend that keeps them, with commands and rounds of the rotation interleaved.
--   Start: `parse_args` and the choice of `main`, display/main.c; Threads has `main` from `term_init`
--     on, with the three threads that it starts and the workers that these start, as far as they meet
--     at the semaphore, the cancellation pipes and `pthread_join`.
--   Scenes: display/testing.c; Fixed runs the loops of its curves on binary fractions.
--   Termination: display/threads/termination.c.
-- The files named Tests apply the theorems to concrete states.
--
-- Numbers: native ones, with the wrap-around of 16 and 32 bits written out where the code computes in
-- such a type and can reach its bound. The 32-bit values of the line and of the circle and the
-- 64-bit values of the triangle are integers.
--
-- Fuel: a loop on a 16-bit counter gets 65537 rounds, one for each value and one for the last test;
-- the line gets 131071, since each round but the last goes on by a column or a row; the circle gets
-- 65537, since its row grows in each round up to its column; `collect_args` gets a round for each
-- byte, and one; the loop over the commands of a line gets one for each byte, and one; a number is
-- printed with 10 digits at most, as many as 32 bits need. These are enough, so `spent` does not come
-- up there. The Bezier curve steps by a `float`, whose rounding decides whether it ends, so its fuel
-- is an argument. The loops that wait for the system (the reader, the event loop, the rotation, the
-- page flip) run over the list of its answers, and are `spent` where that list ends before they do.
--
-- Concurrency: an operation on the panes holds the mutex throughout and is one step. The rotation
-- takes in each round the storage that it finds, so other threads may change it between rounds;
-- Rendering/Rounds has the interleavings as a step relation. A thread that starts another one and
-- waits in `term_block` is run in sequence with it where the whole of what they do is modelled: the
-- last answer that the other one gets is the byte that the first one writes then. Start/Threads has `main`,
-- its threads and their workers in every order.
--
-- Parameters: the operations on `float`, and the coordinates of the scenes that are computed with
-- them; whether an allocation succeeds, of messages and arguments too, and what a backend's
-- `canvas_init` returns; whether system
-- calls succeed; what `poll`, the clock, libdrm, the login manager, the input devices and
-- `getopt_long` answer; the bytes that `fgets` reads, and what is left behind them in its buffer.
--
-- Not modelled: the signal mask and the text of the usage in display/main.c; libdrm, D-Bus and the
-- kernel; the release of libdrm's objects and of the backends' contexts, since no code uses them
-- afterwards; log messages; and the programs in the directories web and bindings, in other languages.
-- The text of an answer is its format with the values in it.
pub mod Prelude
pub mod Canvas
pub mod Panes
pub mod Commands
pub mod Rotation
pub mod Backend
pub mod Termination
pub mod Input
pub mod Drm
pub mod Rendering
pub mod Start
pub mod Scenes
