-- ===== src/Commands/Scan.antt =====
-- The scanning loops of display/threads/commands.c, `eat_whitespace` and those that look for the
-- end of a token, on text that is followed by a byte at which they stop.
use ttds.Prelude.{ℕ, ◌≡◌, true, false, [], ◌∷◌, ◌++◌, Bool, arith}
use ttds.Prelude.Text.{Bytes}
use ttds.Prelude.Run.{done}
use ttds.Commands.{isspace, eat_whitespace, token}

-- Every byte of the text passes, or fails, the test.
abbrev pub All : (ℕ → Bool) → Bytes → Type 0
All test [] = Unit {0}
All test (c ∷ cs) = (test c ≡ true) × All test cs

abbrev pub Lacks : (ℕ → Bool) → Bytes → Type 0
Lacks test [] = Unit {0}
Lacks test (c ∷ cs) = (test c ≡ false) × Lacks test cs

pub eat_whitespace-blanks :
    (bs : Bytes) (c : ℕ) (rest : Bytes)
    → All isspace bs
    → isspace c ≡ false
    → eat_whitespace (bs ++ c ∷ rest) ≡ done (c ∷ rest)
unfolding eat_whitespace
eat_whitespace-blanks [] c rest h stop = ground arith
eat_whitespace-blanks (b ∷ bs) c rest h stop =
    ground (arith, eat_whitespace-blanks bs c rest h.1 stop)

pub token-append :
    (stop : ℕ → Bool) (w : Bytes) (e : ℕ) (rest : Bytes)
    → Lacks stop w
    → stop e ≡ true
    → token stop (w ++ e ∷ rest) ≡ done (w, e ∷ rest)
unfolding token
token-append stop [] e rest h stops = rw stops
token-append stop (c ∷ w) e rest h stops = rw (h.0, token-append stop w e rest h.1 stops)
