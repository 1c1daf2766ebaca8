-- ===== src/Start/Threads/Turns.antt =====
-- What a turn of `main`, of a thread or of a worker of display/main.c keeps and what it uses up.
use ttds.Prelude.{
  ℕ, ◌+◌, ◌≤◌, ◌≡◌, inl, inr, true, List, [], ◌∷◌, Option, none, some, ◌==◌, refl, ap, ◌∙◌, arith,
  Bool-cases,
}
use ttds.Termination.{Termination, term, term_init}
use ttds.Termination.Wakes.{post_times-value}
use ttds.Start.Threads.{
  Phase, unborn, waiting, woken, joining, over, Pair, Side, pair_step, Place, spawn_ui, spawn_input,
  spawn_cmd, blocking, join_input, join_ui, join_cmd, returned, Program, sigint, join, main_step,
  Turn, main_turn, ui_turn, input_turn, cmd_turn, resume, step, started, go, run_turns,
}
use ttds.Start.Threads.Pairs.{is_over, AfterPair, Advanced, pair_step-Advanced}
use ttds.Start.Threads.Places.{all_left, is_ending, IsSound, agrees-ui, agrees-input, agrees-cmd}

-- A turn that does not block leads to a state with the property.
abbrev pub After : (Program → Type 0) → Option Program → Type 0
After P none = Unit {0}
After P (some q) = P q

-- A turn keeps the state sound, and past the signal it adds nothing to the turns that are left.
abbrev pub Turned : Program → Program → Type 0
Turned p q =
    IsSound q
    × ((is_ending p.place ≡ true) → (is_ending q.place ≡ true) × (all_left q ≤ all_left p))

resume-After :
    (o : Option (Pair × Termination)) (f : Pair × Termination → Program) (P : Program → Type 0)
    (Q : Pair × Termination → Type 0)
    → AfterPair Q o
    → ((r : Pair × Termination) → Q r → P (f r))
    → After P (resume o f)
resume-After none f P Q after then_so = tt
resume-After (some r) f P Q after then_so = then_so r after

ui_turn-Turned : (side : Side) (p : Program) → IsSound p → After (Turned p) (step (ui_turn side) p)
unfolding step
ui_turn-Turned side p s =
    resume-After (pair_step side p.termination p.ui) _ (Turned p) (Advanced p.termination p.ui)
      (pair_step-Advanced side p.termination p.ui s.fit_ui)
      (λ r a. (
        record {
          waiters = a.waiters ∙ s.waiters;
          counted = omega (arith, a.counted, s.counted);
          agreed =
              agrees-ui p.place p.ui.parent p.input.parent p.cmd.parent r.0.parent s.agreed
                a.not_over a.is_born_then;
          fit_ui = a.fits_then;
          fit_input = s.fit_input;
          fit_cmd = s.fit_cmd;
        },
        λ ending. (ending, omega (arith, a.no_more)),
      ))

input_turn-Turned :
    (side : Side) (p : Program) → IsSound p → After (Turned p) (step (input_turn side) p)
unfolding step
input_turn-Turned side p s =
    resume-After (pair_step side p.termination p.input) _ (Turned p)
      (Advanced p.termination p.input) (pair_step-Advanced side p.termination p.input s.fit_input)
      (λ r a. (
        record {
          waiters = a.waiters ∙ s.waiters;
          counted = omega (arith, a.counted, s.counted);
          agreed =
              agrees-input p.place p.ui.parent p.input.parent p.cmd.parent r.0.parent s.agreed
                a.not_over a.is_born_then;
          fit_ui = s.fit_ui;
          fit_input = a.fits_then;
          fit_cmd = s.fit_cmd;
        },
        λ ending. (ending, omega (arith, a.no_more)),
      ))

cmd_turn-Turned :
    (side : Side) (p : Program) → IsSound p → After (Turned p) (step (cmd_turn side) p)
unfolding step
cmd_turn-Turned side p s =
    resume-After (pair_step side p.termination p.cmd) _ (Turned p) (Advanced p.termination p.cmd)
      (pair_step-Advanced side p.termination p.cmd s.fit_cmd)
      (λ r a. (
        record {
          waiters = a.waiters ∙ s.waiters;
          counted = omega (arith, a.counted, s.counted);
          agreed =
              agrees-cmd p.place p.ui.parent p.input.parent p.cmd.parent r.0.parent s.agreed
                a.not_over a.is_born_then;
          fit_ui = s.fit_ui;
          fit_input = s.fit_input;
          fit_cmd = a.fits_then;
        },
        λ ending. (ending, omega (arith, a.no_more)),
      ))

term_lem : (t : Termination) → term t ≡ record t { value = t.value + t.num_waiting }
unfolding term
term_lem t = post_times-value t.num_waiting t

blocking-Turned :
    (s : ℕ) (u i c : Pair) (t : Termination)
    → let p : Program = record { place = blocking; ui = u; input = i; cmd = c; termination = t } in
      IsSound p → After (Turned p) (main_step s blocking p)
unfolding main_step
blocking-Turned s u i c t h = elim (Bool-cases (s == sigint)) [
  | inl signal ↦
      rw (signal, term_lem t)
        (
          record {
            waiters = h.waiters;
            counted = omega (arith, h.counted, h.waiters);
            agreed = h.agreed;
            fit_ui = h.fit_ui;
            fit_input = h.fit_input;
            fit_cmd = h.fit_cmd;
          },
          λ e. absurd (ground (arith, e)),
        )
  | inr other ↦ rw other (h, λ e. absurd (ground (arith, e)))
]

join-After :
    (ph : Phase) (q : Program) (P : Program → Type 0) → (ph ≡ over → P q) → After P (join ph q)
join-After unborn q P then_so = tt
join-After waiting q P then_so = tt
join-After woken q P then_so = tt
join-After joining q P then_so = tt
join-After over q P then_so = then_so refl

main-Turned :
    (s : ℕ) (k : Place) (u i c : Pair) (t : Termination)
    → let p : Program = record { place = k; ui = u; input = i; cmd = c; termination = t } in
      IsSound p → After (Turned p) (main_step s k p)
unfolding main_step
main-Turned s spawn_ui u i c t h = (
  record {
    waiters = h.waiters;
    counted = omega (arith, h.counted);
    agreed = refl;
    fit_ui = refl;
    fit_input = h.fit_input;
    fit_cmd = h.fit_cmd;
  },
  λ e. absurd (ground arith),
)
main-Turned s spawn_input u i c t h = (
  record {
    waiters = h.waiters;
    counted = omega (arith, h.counted);
    agreed = ground (arith, h.agreed);
    fit_ui = h.fit_ui;
    fit_input = refl;
    fit_cmd = h.fit_cmd;
  },
  λ e. absurd (ground arith),
)
main-Turned s spawn_cmd u i c t h = (
  record {
    waiters = h.waiters;
    counted = omega (arith, h.counted);
    agreed = ground (arith, h.agreed);
    fit_ui = h.fit_ui;
    fit_input = h.fit_input;
    fit_cmd = refl;
  },
  λ e. absurd (ground arith),
)
main-Turned s blocking u i c t h = blocking-Turned s u i c t h
main-Turned s join_input u i c t h = join-After i.parent _ _ (λ e. (
  record {
    waiters = h.waiters;
    counted = h.counted;
    agreed = ground (arith, h.agreed, ap is_over e);
    fit_ui = h.fit_ui;
    fit_input = h.fit_input;
    fit_cmd = h.fit_cmd;
  },
  λ g. (refl, omega arith),
))
main-Turned s join_ui u i c t h = join-After u.parent _ _ (λ e. (
  record {
    waiters = h.waiters;
    counted = h.counted;
    agreed = ground (arith, h.agreed, ap is_over e);
    fit_ui = h.fit_ui;
    fit_input = h.fit_input;
    fit_cmd = h.fit_cmd;
  },
  λ g. (refl, omega arith),
))
main-Turned s join_cmd u i c t h = join-After c.parent _ _ (λ e. (
  record {
    waiters = h.waiters;
    counted = h.counted;
    agreed = ground (arith, h.agreed, ap is_over e);
    fit_ui = h.fit_ui;
    fit_input = h.fit_input;
    fit_cmd = h.fit_cmd;
  },
  λ g. (refl, omega arith),
))
main-Turned s returned u i c t h = tt

pub step-Turned : (turn : Turn) (p : Program) → IsSound p → After (Turned p) (step turn p)
unfolding step
step-Turned (main_turn s) p h = main-Turned s p.place p.ui p.input p.cmd p.termination h
step-Turned (ui_turn side) p h = ui_turn-Turned side p h
step-Turned (input_turn side) p h = input_turn-Turned side p h
step-Turned (cmd_turn side) p h = cmd_turn-Turned side p h

go-IsSound : (o : Option Program) (p : Program) → IsSound p → After (Turned p) o → IsSound (go o p)
go-IsSound none p h after = h
go-IsSound (some q) p h after = after.0

pub run_turns-IsSound : (turns : List Turn) (p : Program) → IsSound p → IsSound (run_turns turns p)
unfolding run_turns
run_turns-IsSound [] p h = h
run_turns-IsSound (turn ∷ turns) p h =
    run_turns-IsSound turns (go (step turn p) p)
      (go-IsSound (step turn p) p h (step-Turned turn p h))

pub started-IsSound : (t : Termination) → IsSound (started t)
unfolding started term_init
started-IsSound t = record {
  waiters = refl;
  counted = refl;
  agreed = refl;
  fit_ui = refl;
  fit_input = refl;
  fit_cmd = refl;
}
