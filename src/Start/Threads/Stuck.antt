-- ===== src/Start/Threads/Stuck.antt =====
-- What the reader of display/threads/commands.c in `fgets` means for the end of display/main.c.
use ttds.Prelude.{subst, sym, zero, suc, Option-cases}
use ttds.Prelude.{
  ℕ, ◌≡◌, inl, inr, Bool, true, false, List, [], ◌∷◌, Option, none, some, refl, arith, Bool-cases,
  ◌==◌,
}
use ttds.Termination.{Termination, term_block}
use ttds.Start.Threads.{
  Phase, unborn, waiting, woken, joining, over, Worker, absent, polling, busy, ended, Pair, Side,
  parent_side, worker_side, parent_step, worker_step, is_told, with_worker, with_parent, pair_step,
  Place, spawn_ui, spawn_input, spawn_cmd, blocking, join_input, join_ui, join_cmd, returned,
  Program, sigint, join, main_step, Turn, main_turn, ui_turn, input_turn, cmd_turn, resume, step,
  go, run_turns,
}
use ttds.Start.Threads.Pairs.{is_over, AfterPair}
use ttds.Start.Threads.Turns.{After}

abbrev pub is_back : Place → Bool
is_back spawn_ui = false
is_back spawn_input = false
is_back spawn_cmd = false
is_back blocking = false
is_back join_input = false
is_back join_ui = false
is_back join_cmd = false
is_back returned = true

-- Whether `main` has started the thread that reads the commands.
abbrev pub has_reader : Place → Bool
has_reader spawn_ui = false
has_reader spawn_input = false
has_reader spawn_cmd = false
has_reader blocking = true
has_reader join_input = true
has_reader join_ui = true
has_reader join_cmd = true
has_reader returned = true

-- The reader is between two polls, in `fgets`, its thread has not ended, and `main` has not returned.
pub record IsReading (p : Program) : Type 0 where
  pub reads : p.cmd.worker ≡ busy
  pub not_over : is_over p.cmd.parent ≡ false
  pub started : has_reader p.place ≡ true
  pub not_back : is_back p.place ≡ false

-- No line comes for the reader.
abbrev pub brings_line : Turn → Bool
brings_line (main_turn s) = false
brings_line (ui_turn side) = false
brings_line (input_turn side) = false
brings_line (cmd_turn parent_side) = false
brings_line (cmd_turn (worker_side ready)) = ready

abbrev pub NoLine : List Turn → Type 0
NoLine [] = Unit {0}
NoLine (turn ∷ turns) = (brings_line turn ≡ false) × NoLine turns

abbrev StaysBusy : Pair × Termination → Type 0
StaysBusy r = (r.0.worker ≡ busy) × (is_over r.0.parent ≡ false)

waiting_on :
    (w : Worker) (n v : ℕ)
    → w ≡ busy
    → let t : Termination = record { num_waiting = n; value = v } in
      AfterPair StaysBusy
        (with_parent (record { parent = waiting; worker = w }) (parent_step t w waiting))
unfolding parent_step term_block
waiting_on w n zero e = tt
waiting_on w n (suc v) e = (e, refl)

parent_on :
    (ph : Phase) (w : Worker) (t : Termination)
    → w ≡ busy
    → AfterPair StaysBusy (with_parent (record { parent = ph; worker = w }) (parent_step t w ph))
unfolding parent_step
parent_on unborn w t e = tt
parent_on waiting w t e = waiting_on w t.num_waiting t.value e
parent_on woken w t e = (e, refl)
parent_on joining absent t e = tt
parent_on joining polling t e = tt
parent_on joining busy t e = tt
parent_on joining ended t e = cc
parent_on over w t e = tt

-- Without a line the reader does not go on.
worker_on : (told : Bool) (w : Worker) → w ≡ busy → worker_step told false w ≡ none
unfolding worker_step
worker_on told w e = rw e refl

pair_on :
    (side : Side) (pr : Pair) (t : Termination)
    → pr.worker ≡ busy
    → brings_line (cmd_turn side) ≡ false
    → AfterPair StaysBusy (pair_step side t pr)
unfolding pair_step
pair_on parent_side pr t e quiet = parent_on pr.parent pr.worker t e
pair_on (worker_side ready) pr t e quiet = rw quiet (
    subst (λ o. AfterPair StaysBusy (with_worker pr t o))
      (sym (worker_on (is_told pr.parent) pr.worker e)) tt)

resume-all :
    (o : Option (Pair × Termination)) (f : Pair × Termination → Program) (P : Program → Type 0)
    → ((r : Pair × Termination) → P (f r))
    → After P (resume o f)
resume-all none f P all = tt
resume-all (some r) f P all = all r

resume-StaysBusy :
    (o : Option (Pair × Termination)) (f : Pair × Termination → Program) (P : Program → Type 0)
    → AfterPair StaysBusy o
    → ((r : Pair × Termination) → StaysBusy r → P (f r))
    → After P (resume o f)
resume-StaysBusy none f P after all = tt
resume-StaysBusy (some r) f P after all = all r after

not_joined : (ph : Phase) (next q : Program) → is_over ph ≡ false → join ph next ≡ some q → ⊥
not_joined unborn next q running e = cc
not_joined waiting next q running e = cc
not_joined woken next q running e = cc
not_joined joining next q running e = cc
not_joined over next q running e = absurd (ground (arith, running))

joined-IsReading : (ph : Phase) (q : Program) → IsReading q → After IsReading (join ph q)
joined-IsReading unborn q reads = tt
joined-IsReading waiting q reads = tt
joined-IsReading woken q reads = tt
joined-IsReading joining q reads = tt
joined-IsReading over q reads = reads

at :
    (p : Program) (k : Place)
    → IsReading p
    → has_reader k ≡ true
    → is_back k ≡ false
    → IsReading (record p { place = k })
at p k h has back = record {
  reads = h.reads;
  not_over = h.not_over;
  started = has;
  not_back = back;
}

main_on :
    (s : ℕ) (k : Place) (u i c : Pair) (t : Termination)
    → let p : Program = record { place = k; ui = u; input = i; cmd = c; termination = t } in
      IsReading p → After IsReading (main_step s k p)
unfolding main_step
main_on s spawn_ui u i c t h = absurd (ground (arith, h.started))
main_on s spawn_input u i c t h = absurd (ground (arith, h.started))
main_on s spawn_cmd u i c t h = absurd (ground (arith, h.started))
main_on s blocking u i c t h = elim (Bool-cases (s == sigint)) [
  | inl signal ↦
      rw signal (record { reads = h.reads; not_over = h.not_over; started = refl; not_back = refl })
  | inr other ↦ rw other h
]
main_on s join_input u i c t h = joined-IsReading i.parent _ (at _ join_ui h refl refl)
main_on s join_ui u i c t h = joined-IsReading u.parent _ (at _ join_cmd h refl refl)
main_on s join_cmd u i c t h =
    elim (Option-cases
      (join c.parent (record { place = returned; ui = u; input = i; cmd = c; termination = t }))) [
        | inl blocks ↦ rw blocks tt
        | inr (q, joins) ↦ absurd (not_joined c.parent _ q h.not_over joins)
      ]
main_on s returned u i c t h = absurd (ground (arith, h.not_back))

step-IsReading :
    (turn : Turn) (p : Program)
    → brings_line turn ≡ false
    → IsReading p
    → After IsReading (step turn p)
unfolding step
step-IsReading (main_turn s) p quiet h = main_on s p.place p.ui p.input p.cmd p.termination h
step-IsReading (ui_turn side) p quiet h = resume-all _ _ IsReading (λ r. record {
  reads = h.reads;
  not_over = h.not_over;
  started = h.started;
  not_back = h.not_back;
})
step-IsReading (input_turn side) p quiet h = resume-all _ _ IsReading (λ r. record {
  reads = h.reads;
  not_over = h.not_over;
  started = h.started;
  not_back = h.not_back;
})
step-IsReading (cmd_turn side) p quiet h =
    resume-StaysBusy _ _ IsReading (pair_on side p.cmd p.termination h.reads quiet)
      (λ r b. record { reads = b.0; not_over = b.1; started = h.started; not_back = h.not_back })

go-IsReading :
    (o : Option Program) (p : Program) → IsReading p → After IsReading o → IsReading (go o p)
go-IsReading none p h after = h
go-IsReading (some q) p h after = after

-- While the thread that reads the commands is in `fgets`, in the middle of a line, and no more of
-- the line comes, `main` does not return and that thread does not end, whatever turns all threads take
-- and whatever signals arrive.
pub run_turns-IsReading :
    (turns : List Turn) (p : Program) → NoLine turns → IsReading p → IsReading (run_turns turns p)
unfolding run_turns
run_turns-IsReading [] p quiet h = h
run_turns-IsReading (turn ∷ turns) p (quiet, more) h =
    run_turns-IsReading turns (go (step turn p) p) more
      (go-IsReading (step turn p) p h (step-IsReading turn p quiet h))
