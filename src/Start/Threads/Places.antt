-- ===== src/Start/Threads/Places.antt =====
-- Where `main` of display/main.c stands, and what that says of its threads and of the semaphore.
use ttds.Prelude.{ℕ, ◌+◌, ◌≡◌, Bool, true, false, ◌&&◌, refl, arith, if◌then◌else◌}
use ttds.Start.Threads.{
  Phase, Place, spawn_ui, spawn_input, spawn_cmd, blocking, join_input, join_ui, join_cmd, returned,
  Program,
}
use ttds.Start.Threads.Pairs.{is_over, is_born, passed, turns_left, fits}

-- The calls of `pthread_join` that `main` has left.
abbrev pub joins_left : Place → ℕ
joins_left spawn_ui = 3
joins_left spawn_input = 3
joins_left spawn_cmd = 3
joins_left blocking = 3
joins_left join_input = 3
joins_left join_ui = 2
joins_left join_cmd = 1
joins_left returned = 0

abbrev pub all_left : Program → ℕ
all_left p = joins_left p.place + turns_left p.ui + turns_left p.input + turns_left p.cmd

-- Whether `main` is past the signal.
abbrev pub is_ending : Place → Bool
is_ending spawn_ui = false
is_ending spawn_input = false
is_ending spawn_cmd = false
is_ending blocking = false
is_ending join_input = true
is_ending join_ui = true
is_ending join_cmd = true
is_ending returned = true

-- Which threads were created and joined where `main` stands.
abbrev pub agrees : Place → Phase → Phase → Phase → Bool
agrees spawn_ui u i c = true
agrees spawn_input u i c = is_born u
agrees spawn_cmd u i c = is_born u && is_born i
agrees blocking u i c = is_born u && (is_born i && is_born c)
agrees join_input u i c = is_born u && (is_born i && is_born c)
agrees join_ui u i c = is_born u && (is_over i && is_born c)
agrees join_cmd u i c = is_over u && (is_over i && is_born c)
agrees returned u i c = is_over u && (is_over i && is_over c)

-- The posts of the semaphore, of which the value is what no thread has taken.
pub record IsSound (p : Program) : Type 0 where
  pub waiters : p.termination.num_waiting ≡ 4
  pub counted :
      p.termination.value + passed p.ui.parent + passed p.input.parent + passed p.cmd.parent
      ≡ (if is_ending p.place then 4 else 0)
  pub agreed : agrees p.place p.ui.parent p.input.parent p.cmd.parent ≡ true
  pub fit_ui : fits p.ui ≡ true
  pub fit_input : fits p.input ≡ true
  pub fit_cmd : fits p.cmd ≡ true

pub agrees-ui :
    (k : Place) (u i c u' : Phase)
    → agrees k u i c ≡ true
    → is_over u ≡ false
    → is_born u' ≡ true
    → agrees k u' i c ≡ true
agrees-ui spawn_ui u i c u' a n b = refl
agrees-ui spawn_input u i c u' a n b = ground arith
agrees-ui spawn_cmd u i c u' a n b = ground arith
agrees-ui blocking u i c u' a n b = ground arith
agrees-ui join_input u i c u' a n b = ground arith
agrees-ui join_ui u i c u' a n b = ground arith
agrees-ui join_cmd u i c u' a n b = ground arith
agrees-ui returned u i c u' a n b = ground arith

pub agrees-input :
    (k : Place) (u i c i' : Phase)
    → agrees k u i c ≡ true
    → is_over i ≡ false
    → is_born i' ≡ true
    → agrees k u i' c ≡ true
agrees-input spawn_ui u i c i' a n b = refl
agrees-input spawn_input u i c i' a n b = a
agrees-input spawn_cmd u i c i' a n b = ground arith
agrees-input blocking u i c i' a n b = ground arith
agrees-input join_input u i c i' a n b = ground arith
agrees-input join_ui u i c i' a n b = ground arith
agrees-input join_cmd u i c i' a n b = ground arith
agrees-input returned u i c i' a n b = ground arith

pub agrees-cmd :
    (k : Place) (u i c c' : Phase)
    → agrees k u i c ≡ true
    → is_over c ≡ false
    → is_born c' ≡ true
    → agrees k u i c' ≡ true
agrees-cmd spawn_ui u i c c' a n b = refl
agrees-cmd spawn_input u i c c' a n b = a
agrees-cmd spawn_cmd u i c c' a n b = a
agrees-cmd blocking u i c c' a n b = ground arith
agrees-cmd join_input u i c c' a n b = ground arith
agrees-cmd join_ui u i c c' a n b = ground arith
agrees-cmd join_cmd u i c c' a n b = ground arith
agrees-cmd returned u i c c' a n b = ground arith
