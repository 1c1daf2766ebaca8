-- ===== src/Rotation/Sleep.antt =====
-- The sleep time of display/threads/ui.c, in one sleep and in sleeps one after another.
use ttds.Prelude.{
  ℕ, ◌+◌, ◌-◌, ◌*◌, ◌^◌, ◌%◌, ltb, leb, sym, subst, ◌∙◌, ◌≤◌, ◌<◌, ◌≡◌, ◌⊎◌, inl, inr, true, List,
  [], ◌∷◌, refl, arith, Bool-cases,
}
use ttds.Prelude.Text.{length}
use ttds.Prelude.Int.{ℤ, pos, ◌+ℤ◌, ◌-ℤ◌, -ℤ_parts, eq_of_parts}
use ttds.Prelude.Run.{Run, done}
use ttds.Rotation.{
  SleepResult, should_cancel, should_switch, should_sync, Wake, pane_delay, elapsed, delta,
  cancellable_sleep,
}

-- The clock does not go back, and one sleep takes less than 2 ^ 31 milliseconds.
pub record Monotonic (wake : Wake) : Type 0 where
  pub forward : wake.prior ≤ wake.post
  pub short : wake.post < wake.prior + 2 ^ 31

elapsed_lem : (wake : Wake) → Monotonic wake → elapsed wake ≡ pos (wake.post - wake.prior)
unfolding elapsed
elapsed_lem wake m =
    let n : (wake.post % 2 ^ 32 + 2 ^ 32 - wake.prior % 2 ^ 32) % 2 ^ 32 ≡ wake.post - wake.prior =
      omega (arith, m.forward, m.short) in
    rw n (ground (arith, m.forward, m.short))

-- The time that a request takes off the sleep: at least 20 milliseconds.
delta_lem : (wake : Wake) → Monotonic wake → (d : ℕ) × (delta wake ≡ pos d) × (20 ≤ d)
unfolding delta ◌+ℤ◌
delta_lem wake m = elim (Bool-cases (ltb (wake.post - wake.prior) 20)) [
  | inl short ↦ (wake.post - wake.prior + 20, rw (elapsed_lem wake m) (ground arith), omega arith)
  | inr enough ↦ (wake.post - wake.prior, rw (elapsed_lem wake m) (ground arith), ground arith)
]

-- What a round makes of a sleep time of at most 5000: what is left after a request is smaller by
-- 20 or more and is not 0; otherwise the full time starts anew.
abbrev pub Slept : ℕ → SleepResult → ℤ → Type 0
Slept before should_sync time =
    (n : ℕ) × (time ≡ pos n) × (0 < n) × (n + 20 ≤ before) × (50 ≤ before)
Slept before should_switch time = time ≡ pane_delay
Slept before should_cancel time = time ≡ pane_delay

-- If `poll` succeeds and the clock is monotonic, a sleep returns. A request that keeps the pane
-- takes at least 20 milliseconds off the sleep time and leaves some of it, and that happens only
-- from 50 milliseconds on; every other result sets the sleep time to 5000.
pub cancellable_sleep-Slept :
    (wake : Wake) (before : ℕ)
    → wake.poll_ok ≡ true
    → Monotonic wake
    → (r : SleepResult) × (time : ℤ) × (cancellable_sleep wake (pos before) ≡ done (r, time))
      × Slept before r time
unfolding cancellable_sleep
cancellable_sleep-Slept wake before ok m = elim (Bool-cases (ltb before 50)) [
  | inl low ↦ (should_switch, pane_delay, ground arith, refl)
  | inr enough ↦ elim (Bool-cases wake.cancelled) [
    | inl stop ↦ (should_cancel, pane_delay, ground arith, refl)
    | inr on ↦ elim (Bool-cases wake.synced) [
      | inr timeout ↦ (should_switch, pane_delay, ground arith, refl)
      | inl request ↦
          let (d, e, long) = delta_lem wake m in
          elim (Bool-cases (leb before d)) [
            | inl over ↦ (should_switch, pane_delay, ground arith, refl)
            | inr left ↦
                let rest : pos before -ℤ delta wake ≡ pos (before - d) =
                  eq_of_parts _ _ (ground (arith, -ℤ_parts (pos before) (delta wake))) in
                (
                  should_sync,
                  pos (before - d),
                  ground (arith, rest),
                  (before - d, refl, ground arith, ground arith, ground arith),
                )
          ]
    ]
  ]
]

-- Sleeps one after another that each end by a request, from one sleep time to another.
pub data Syncs : ℕ → List Wake → ℕ → Type 0 where
  no_more : {n : ℕ} → Syncs n [] n
  sync :
      {n m k : ℕ} {wake : Wake} {wakes : List Wake}
      → wake.poll_ok ≡ true
      → Monotonic wake
      → cancellable_sleep wake (pos n) ≡ done (should_sync, pos m)
      → Syncs m wakes k
      → Syncs n (wake ∷ wakes) k

sync-shorter :
    (wake : Wake) (n m : ℕ)
    → wake.poll_ok ≡ true
    → Monotonic wake
    → cancellable_sleep wake (pos n) ≡ done (should_sync, pos m)
    → (m + 20 ≤ n) × (50 ≤ n)
sync-shorter wake n m ok mono e =
    let (r, time, returns, slept) = cancellable_sleep-Slept wake n ok mono in
    let run : ◌≡◌ {A = Run (SleepResult × ℤ)} (done (r, time)) (done (should_sync, pos m)) =
      sym returns ∙ e in
    let same : ◌≡◌ {A = SleepResult × ℤ} (r, time) (should_sync, pos m) = cc in
    let (k, is_k, some_left, less, before) =
      subst {A = SleepResult × ℤ} (λ p. Slept n p.0 p.1) same slept in
    ground arith

Syncs-bounded :
    {n k : ℕ} {wakes : List Wake}
    → Syncs n wakes k
    → (length wakes ≡ 0) ⊎ (20 * length wakes + 30 ≤ n)
Syncs-bounded no_more = inl refl
Syncs-bounded (sync {n} {m} {wake = wake} ok mono e more) =
    let shorter = sync-shorter wake n m ok mono e in inr (ground (arith, Syncs-bounded more))

-- If `poll` succeeds and the clock is monotonic, then from the full sleep time on at most 248
-- sleeps in a row end by a request that keeps the pane, however fast the requests come.
pub Syncs-length : (wakes : List Wake) (k : ℕ) → Syncs 5000 wakes k → length wakes ≤ 248
Syncs-length wakes k s = ground (arith, Syncs-bounded s)
