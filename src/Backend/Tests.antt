-- ===== src/Backend/Tests.antt =====
-- The theorems on display/rendering/mem/mem.c at concrete canvases.
use ttds.Prelude.{◌≡◌, ◌⊎◌, true, refl, none, some, refl}
use ttds.Canvas.{Canvas, calloc, canvas_init_bgra}
use ttds.Canvas.Texel.{SameShape}
use ttds.Panes.Create.{Allocates}
use ttds.Backend.{mem_rendering_init, mem_canvas_init}
use ttds.Backend.Shows.{mem_canvas_init-SameShape}

abbrev screen : Canvas
screen = record { width = 640; height = 480; stride = 2560; buffer = calloc 1228800 }

screen_made : mem_rendering_init true true ≡ some screen
unfolding mem_rendering_init canvas_init_bgra
screen_made = refl

mem_canvas_init-SameShape_example :
    Allocates (mem_canvas_init true true screen)
    × ((mem_canvas_init true true screen ≡ none)
        ⊎ ((c : Canvas) × (mem_canvas_init true true screen ≡ some c) × SameShape screen c))
mem_canvas_init-SameShape_example = mem_canvas_init-SameShape true true true true screen screen_made
