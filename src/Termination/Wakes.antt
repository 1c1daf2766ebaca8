-- ===== src/Termination/Wakes.antt =====
-- How many threads `term` of display/threads/termination.c wakes.
use ttds.Prelude.{
  ℕ, zero, suc, ◌+◌, ◌-◌, ◌≡◌, refl, Option, none, some, leb, if◌then◌else◌, arith, ◌∙◌, ap,
}
use ttds.Termination.{Termination, post_times, term, term_init, term_block}

-- Calls of `term_block` one after another, by any threads.
abbrev pub blocks : ℕ → Termination → Option Termination
blocks zero t = some t
blocks (suc k) t = elim (term_block t) [ none ↦ none | some t' ↦ blocks k t' ]

pub post_times-value :
    (left : ℕ) (t : Termination) → post_times left t ≡ record t { value = t.value + left }
unfolding post_times
post_times-value zero t = ap (λ v. record t { value = v }) (omega arith)
post_times-value (suc left) t =
    post_times-value left (record t { value = t.value + 1 })
    ∙ ap (λ v. record t { value = v }) (omega arith)

blocks-value :
    (k n v : ℕ)
    → blocks k (record { num_waiting = n; value = v })
      ≡ (if leb k v then some (record { num_waiting = n; value = v - k }) else none)
unfolding term_block
blocks-value zero n v = ground arith
blocks-value (suc k) n zero = ground arith
blocks-value (suc k) n (suc v) = blocks-value k n v ∙ ground arith

-- Right after `term_init` a call of `term_block` blocks. After `term` as well, calls of
-- `term_block` in a row all return if they are at most as many as `term_init` was told of, and
-- otherwise one of them blocks.
pub term-blocks :
    (t : Termination) (n k : ℕ)
    → (term_block (term_init n t) ≡ none)
      × (blocks k (term (term_init n t))
          ≡ (if leb k n then some (record { num_waiting = n; value = n - k }) else none))
unfolding term term_init term_block
term-blocks t n k = (
  refl,
  rw (post_times-value n (record { num_waiting = n; value = 0 }))
      (blocks-value k n (0 + n) ∙ ground arith),
)
