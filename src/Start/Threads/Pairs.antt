-- ===== src/Start/Threads/Pairs.antt =====
-- A thread of display/main.c and its worker: what a turn of one of them keeps and what it uses up.
use ttds.Prelude.{
  ℕ, zero, suc, ◌+◌, ◌≤◌, ◌<◌, ◌≡◌, ◌⊎◌, inl, inr, Bool, true, false, Option, none, some, refl,
  arith,
}
use ttds.Termination.{Termination, term_block}
use ttds.Start.Threads.{
  Phase, unborn, waiting, woken, joining, over, Worker, absent, polling, busy, ended, Pair,
  parent_step, worker_step, is_told, Side, parent_side, worker_side, with_worker, with_parent,
  pair_step,
}

abbrev pub is_over : Phase → Bool
is_over unborn = false
is_over waiting = false
is_over woken = false
is_over joining = false
is_over over = true

abbrev pub is_born : Phase → Bool
is_born unborn = false
is_born waiting = true
is_born woken = true
is_born joining = true
is_born over = true

abbrev pub is_running : Worker → Bool
is_running absent = false
is_running polling = true
is_running busy = true
is_running ended = false

-- How often a thread went past `term_block`.
abbrev pub passed : Phase → ℕ
passed unborn = 0
passed waiting = 0
passed woken = 1
passed joining = 1
passed over = 1

-- The turns that a worker which is told to stop has left.
abbrev worker_left : Worker → ℕ
worker_left absent = 0
worker_left polling = 1
worker_left busy = 2
worker_left ended = 0

-- The turns that the pair has left, those of a worker that is not told yet not counted.
abbrev left : Phase → Worker → ℕ
left unborn w = 0
left waiting w = 5
left woken w = 4
left joining w = worker_left w + 1
left over w = 0

abbrev pub turns_left : Pair → ℕ
turns_left pr = left pr.parent pr.worker

-- A worker runs until it is told to stop, and a thread is over after its worker.
abbrev fit : Phase → Worker → Bool
fit unborn absent = true
fit unborn polling = false
fit unborn busy = false
fit unborn ended = false
fit waiting w = is_running w
fit woken w = is_running w
fit joining absent = false
fit joining polling = true
fit joining busy = true
fit joining ended = true
fit over absent = false
fit over polling = false
fit over busy = false
fit over ended = true

abbrev pub fits : Pair → Bool
fits pr = fit pr.parent pr.worker

-- The turn of a pair.
pub record Advanced (t : Termination) (pr : Pair) (r : Pair × Termination) : Type 0 where
  pub waiters : r.1.num_waiting ≡ t.num_waiting
  pub counted : r.1.value + passed r.0.parent ≡ t.value + passed pr.parent
  pub is_born_then : is_born r.0.parent ≡ true
  pub not_over : is_over pr.parent ≡ false
  pub fits_then : fits r.0 ≡ true
  pub no_more : turns_left r.0 ≤ turns_left pr

-- A turn that does not block leads to a pair with the property.
abbrev pub AfterPair : (Pair × Termination → Type 0) → Option (Pair × Termination) → Type 0
AfterPair P none = Unit {0}
AfterPair P (some r) = P r

parent_at :
    (ph : Phase) (w : Worker) (n v : ℕ)
    → let t : Termination = record { num_waiting = n; value = v } in
      let pr : Pair = record { parent = ph; worker = w } in
      fit ph w ≡ true → AfterPair (Advanced t pr) (with_parent pr (parent_step t w ph))
unfolding parent_step term_block
parent_at unborn w n v f = tt
parent_at waiting w n zero f = tt
parent_at waiting w n (suc v) f = record {
  waiters = refl;
  counted = omega arith;
  is_born_then = refl;
  not_over = refl;
  fits_then = f;
  no_more = omega arith;
}
parent_at woken absent n v f = absurd (ground (arith, f))
parent_at woken polling n v f = record {
  waiters = refl;
  counted = refl;
  is_born_then = refl;
  not_over = refl;
  fits_then = refl;
  no_more = omega arith;
}
parent_at woken busy n v f = record {
  waiters = refl;
  counted = refl;
  is_born_then = refl;
  not_over = refl;
  fits_then = refl;
  no_more = omega arith;
}
parent_at woken ended n v f = absurd (ground (arith, f))
parent_at joining absent n v f = tt
parent_at joining polling n v f = tt
parent_at joining busy n v f = tt
parent_at joining ended n v f = record {
  waiters = refl;
  counted = refl;
  is_born_then = refl;
  not_over = refl;
  fits_then = refl;
  no_more = omega arith;
}
parent_at over w n v f = tt

module _ (t : Termination) where
  worker_at :
      (ph : Phase) (w : Worker) (ready : Bool)
      → fit ph w ≡ true
      → let pr : Pair = record { parent = ph; worker = w } in
        AfterPair (Advanced t pr) (with_worker pr t (worker_step (is_told ph) ready w))
  unfolding worker_step
  worker_at unborn absent ready f = tt
  worker_at unborn polling ready f = absurd (ground (arith, f))
  worker_at unborn busy ready f = absurd (ground (arith, f))
  worker_at unborn ended ready f = absurd (ground (arith, f))
  worker_at waiting absent ready f = tt
  worker_at waiting polling true f = record {
    waiters = refl;
    counted = refl;
    is_born_then = refl;
    not_over = refl;
    fits_then = refl;
    no_more = omega arith;
  }
  worker_at waiting polling false f = tt
  worker_at waiting busy true f = record {
    waiters = refl;
    counted = refl;
    is_born_then = refl;
    not_over = refl;
    fits_then = refl;
    no_more = omega arith;
  }
  worker_at waiting busy false f = tt
  worker_at waiting ended ready f = tt
  worker_at woken absent ready f = tt
  worker_at woken polling true f = record {
    waiters = refl;
    counted = refl;
    is_born_then = refl;
    not_over = refl;
    fits_then = refl;
    no_more = omega arith;
  }
  worker_at woken polling false f = tt
  worker_at woken busy true f = record {
    waiters = refl;
    counted = refl;
    is_born_then = refl;
    not_over = refl;
    fits_then = refl;
    no_more = omega arith;
  }
  worker_at woken busy false f = tt
  worker_at woken ended ready f = tt
  worker_at joining absent ready f = tt
  worker_at joining polling ready f = record {
    waiters = refl;
    counted = refl;
    is_born_then = refl;
    not_over = refl;
    fits_then = refl;
    no_more = omega arith;
  }
  worker_at joining busy true f = record {
    waiters = refl;
    counted = refl;
    is_born_then = refl;
    not_over = refl;
    fits_then = refl;
    no_more = omega arith;
  }
  worker_at joining busy false f = tt
  worker_at joining ended ready f = tt
  worker_at over absent ready f = tt
  worker_at over polling ready f = absurd (ground (arith, f))
  worker_at over busy ready f = absurd (ground (arith, f))
  worker_at over ended ready f = tt

pub pair_step-Advanced :
    (side : Side) (t : Termination) (pr : Pair)
    → fits pr ≡ true
    → AfterPair (Advanced t pr) (pair_step side t pr)
unfolding pair_step
pair_step-Advanced parent_side t pr f = parent_at pr.parent pr.worker t.num_waiting t.value f
pair_step-Advanced (worker_side ready) t pr f = worker_at t pr.parent pr.worker ready f

-- A turn of the pair that takes one of the turns it has left, if what its worker waits for comes.
pub record Lowers (t : Termination) (pr : Pair) : Type 0 where
  pub side : Side
  pub next : Pair × Termination
  pub steps : pair_step side t pr ≡ some next
  pub fewer : turns_left next.0 < turns_left pr

pub pair-Lowers :
    (n v : ℕ) (ph : Phase) (w : Worker)
    → let pr : Pair = record { parent = ph; worker = w } in
      is_born ph ≡ true
      → fit ph w ≡ true
      → 0 < v
      → (ph ≡ over) ⊎ Lowers (record { num_waiting = n; value = v }) pr
unfolding pair_step parent_step worker_step term_block
pair-Lowers n v unborn w b f post = absurd (ground (arith, b))
pair-Lowers n zero waiting w b f post = absurd (omega (arith, post))
pair-Lowers n (suc v) waiting w b f post =
    inr (record { side = parent_side; next = _; steps = refl; fewer = omega arith })
pair-Lowers n v woken absent b f post = absurd (ground (arith, f))
pair-Lowers n v woken polling b f post =
    inr (record { side = parent_side; next = _; steps = refl; fewer = omega arith })
pair-Lowers n v woken busy b f post =
    inr (record { side = parent_side; next = _; steps = refl; fewer = omega arith })
pair-Lowers n v woken ended b f post = absurd (ground (arith, f))
pair-Lowers n v joining absent b f post = absurd (ground (arith, f))
pair-Lowers n v joining polling b f post =
    inr (record { side = worker_side true; next = _; steps = refl; fewer = omega arith })
pair-Lowers n v joining busy b f post =
    inr (record { side = worker_side true; next = _; steps = refl; fewer = omega arith })
pair-Lowers n v joining ended b f post =
    inr (record { side = parent_side; next = _; steps = refl; fewer = omega arith })
pair-Lowers n v over w b f post = inl refl

pub passed-le : (ph : Phase) → passed ph ≤ 1
passed-le unborn = omega arith
passed-le waiting = omega arith
passed-le woken = omega arith
passed-le joining = omega arith
passed-le over = omega arith

pub turns_left-le : (ph : Phase) (w : Worker) → left ph w ≤ 5
turns_left-le unborn w = omega arith
turns_left-le waiting w = omega arith
turns_left-le woken w = omega arith
turns_left-le joining absent = omega arith
turns_left-le joining polling = omega arith
turns_left-le joining busy = omega arith
turns_left-le joining ended = omega arith
turns_left-le over w = omega arith
