-- ===== src/Commands/Total.antt =====
-- The parser of display/threads/commands.c on every line; the reader ends each line with two NULs.
use mathlib.Core.List.{append_assoc, append-nil}
use mathlib.Core.Path.{subst₂}
use ttds.Prelude.{
  ℕ, zero, suc, ◌+◌, ◌≤◌, ◌<◌, ◌≡◌, refl, true, false, Bool, List, [], ◌∷◌, ◌++◌, arith,
}
use ttds.Prelude.{◌==◌, not, ◌∙◌, sym, ap, ◌⊎◌, inl, inr, Bool-cases, subst}
use ttds.Prelude.Text.{Bytes, length, length-append}
use ttds.Prelude.Run.{done, Run}
use ttds.Commands.{isspace, Command, as_argv, ends_action, ends_arg, parse}
use ttds.Commands.Scan.{All, Lacks}
use ttds.Commands.Syntax.{
  IsWord, Args, at_end, at_semicolon, none_left, another, parse-Args, parse_action_at_end,
  parse_nothing,
}

abbrev pub is_nul : ℕ → Bool
is_nul c = c == 0

-- A line of the buffer: a text without NULs, two NULs, and what earlier lines left behind them.
abbrev pub line_of : Bytes → Bytes → Bytes
line_of text stale = text ++ 0 ∷ 0 ∷ stale

-- Where a text passes the test no more.
abbrev Stops : (ℕ → Bool) → Bytes → Type 0
Stops test [] = Unit {0}
Stops test (c ∷ cs) = test c ≡ false

-- The longest part at the front that passes the test, and the rest.
record Split (test : ℕ → Bool) (text : Bytes) : Type 0 where
  front : Bytes
  back : Bytes
  joined : text ≡ front ++ back
  passes : All test front
  stops : Stops test back
  shorter : length front + length back ≡ length text
  clean : Lacks is_nul back

split : (test : ℕ → Bool) (text : Bytes) → Lacks is_nul text → Split test text
split test [] n = record {
  front = [];
  back = [];
  joined = refl;
  passes = tt;
  stops = tt;
  shorter = omega arith;
  clean = tt;
}
split test (c ∷ cs) n = elim (Bool-cases (test c)) [
  | inl yes_c ↦
      let rest = split test cs n.1 in
      record {
        front = c ∷ rest.front;
        back = rest.back;
        joined = ap (◌∷◌ c) rest.joined;
        passes = (yes_c, rest.passes);
        stops = rest.stops;
        shorter = omega (arith, rest.shorter);
        clean = rest.clean;
      }
  | inr no_c ↦ record {
    front = [];
    back = c ∷ cs;
    joined = refl;
    passes = tt;
    stops = no_c;
    shorter = omega arith;
    clean = n;
  }
]

-- The cursor stands at a text of at most `n` bytes that the two NULs follow, or at a NUL.
abbrev pub Sound : Bytes → ℕ → Bytes → Type 0
Sound stale n cursor =
    ((text : Bytes) × Lacks is_nul text × (length text ≤ n) × (cursor ≡ line_of text stale))
    ⊎ ((rest : Bytes) × (cursor ≡ 0 ∷ rest))

-- A token and what follows it, where the text does not begin with a stop byte.
All-not-Lacks : (stop : ℕ → Bool) (w : Bytes) → All (λ c. not (stop c)) w → Lacks stop w
All-not-Lacks stop [] h = tt
All-not-Lacks stop (c ∷ cs) h = (ground arith, All-not-Lacks stop cs h.1)

-- What `collect_args` reads from a text, for some arguments.
abbrev Reads : ℕ → Bytes → Bytes → Type 0
Reads n stale text =
    (ws : List Bytes) × (after : Bytes) × Args ws (line_of text stale) after × Sound stale n after

Sound-mono :
    {stale : Bytes} {m n : ℕ} {cursor : Bytes} → m ≤ n → Sound stale m cursor → Sound stale n cursor
Sound-mono h (inl (text, clean, short, e)) = inl (text, clean, omega arith, e)
Sound-mono h (inr (rest, e)) = inr (rest, e)

regroup :
    (w bs back : Bytes) (e : ℕ) (r stale : Bytes)
    → r ≡ bs ++ back
    → w ++ e ∷ (bs ++ line_of back stale) ≡ w ++ e ∷ line_of r stale
regroup w bs back e r stale h = rw (h, append_assoc)

-- An argument, what ends it, and the rest by the induction hypothesis.
argument-Reads :
    (fuel : ℕ) (w back stale : Bytes)
    → IsWord ends_arg w
    → Lacks is_nul back
    → Stops (λ c. not (ends_arg c)) back
    → length back ≤ fuel
    → ((text : Bytes)
        → length text < fuel
        → Lacks is_nul text
        → Stops isspace text
        → Reads (length text) stale text)
    → (ws : List Bytes) × (after : Bytes) × Args ws (w ++ line_of back stale) after
      × Sound stale (length back) after
argument-Reads fuel w [] stale word clean stops short rec =
    (w ∷ [], 0 ∷ 0 ∷ stale, at_end word, inr (0 ∷ stale, refl))
argument-Reads fuel w (e ∷ r) stale word clean stops short rec = elim (Bool-cases (e == b';')) [
  | inl semicolon ↦ (
    w ∷ [],
    line_of r stale,
    subst (λ k. Args (w ∷ []) (w ++ k ∷ line_of r stale) (line_of r stale)) (sym (ground arith))
        (at_semicolon word),
    inl (r, clean.1, omega arith, refl),
  )
  | inr other ↦
      let blank : isspace e ≡ true = ground arith in
      let s = split isspace r clean.1 in
      let (ws, after, args, sound) = rec s.back (omega (arith, s.shorter)) s.clean s.stops in
      (
        w ∷ ws,
        after,
        subst (λ k. Args (w ∷ ws) k after) (regroup w s.front s.back e r stale s.joined)
            (another e s.front word (blank, s.passes) args),
        Sound-mono (omega (arith, s.shorter)) sound,
      )
]

-- Every text is an argument list of some kind.
Args-total :
    (fuel : ℕ) (stale text : Bytes)
    → length text < fuel
    → Lacks is_nul text
    → Stops isspace text
    → Reads (length text) stale text
Args-total zero stale text enough n s = absurd (omega arith)
Args-total (suc fuel) stale [] enough n s =
    ([], 0 ∷ 0 ∷ stale, none_left refl, inr (0 ∷ stale, refl))
Args-total (suc fuel) stale (c ∷ cs) enough n s = elim (Bool-cases (c == b';')) [
  | inl semicolon ↦
      ([], 0 ∷ line_of cs stale, none_left (ground arith), inr (line_of cs stale, refl))
  | inr other ↦
      let t = split (λ k. not (ends_arg k)) cs n.1 in
      let word : IsWord ends_arg (c ∷ t.front) =
        (ground arith, All-not-Lacks ends_arg _ t.passes) in
      let (ws, after, args, sound) =
        argument-Reads fuel (c ∷ t.front) t.back stale word t.clean t.stops
          (omega (arith, t.shorter)) (Args-total fuel stale) in
      (
        ws,
        after,
        subst (λ k. Args ws (c ∷ k) after)
            (sym (append_assoc t.front t.back (0 ∷ 0 ∷ stale))
              ∙ ap (λ k. line_of k stale) (sym t.joined))
            args,
        Sound-mono (omega (arith, t.shorter)) sound,
      )
]

-- What one call of `parse` does on a line: it answers that no command is left, and then the line
-- has blanks alone; or it answers with a command, and leaves a shorter text, or none.
pub data Parsed (stale text : Bytes) (old : Command) (r : Run (Bool × Bytes × Command))
    : Type 0 where
  no_command : All isspace text → r ≡ done (false, 0 ∷ 0 ∷ stale, old) → Parsed stale text old r
  command :
      (n : ℕ) (cursor : Bytes) (c : Command)
      → r ≡ done (true, cursor, c)
      → n < length text
      → Sound stale n cursor
      → Parsed stale text old r

action-Parsed :
    (bs a back stale : Bytes) (old : Command)
    → All isspace bs
    → IsWord ends_action a
    → Lacks is_nul back
    → Stops (λ c. not (ends_action c)) back
    → (n : ℕ) × (cursor : Bytes) × (c : Command) × (parse true (bs ++ (a ++ line_of back stale)) old
        ≡ done (true, cursor, c))
      × (n ≤ length back)
      × Sound stale n cursor
action-Parsed bs a [] stale old blanks word clean stops = (
  0,
  0 ∷ stale,
  record old { action = a },
  parse_action_at_end _ bs a (0 ∷ stale) old blanks word,
  omega arith,
  inr (stale, refl),
)
action-Parsed bs a (e ∷ r) stale old blanks word clean stops =
    let blank : isspace e ≡ true = ground arith in
    let s = split isspace r clean.1 in
    let (ws, after, args, sound) =
      Args-total (suc (length s.back)) stale s.back (omega arith) s.clean s.stops in
    (
      length s.back,
      after,
      record { action = a; argc = length ws; argv = as_argv ws },
      subst
          (λ k.
            parse true (bs ++ k) old
            ≡ done (true, after, record { action = a; argc = length ws; argv = as_argv ws }))
          (regroup a s.front s.back e r stale s.joined)
          (parse-Args bs a e s.front old blanks word (blank, s.passes) args),
      omega (arith, s.shorter),
      sound,
    )

parse-split :
    (front back stale : Bytes) (old : Command)
    → All isspace front
    → Stops isspace back
    → Lacks is_nul back
    → Parsed stale (front ++ back) old (parse true (front ++ line_of back stale) old)
parse-split front [] stale old blanks stops clean =
    no_command (rw append-nil blanks) (parse_nothing _ front (0 ∷ stale) old blanks)
parse-split front (c ∷ cs) stale old blanks stops clean =
    let t = split (λ k. not (ends_action k)) cs clean.1 in
    let word : IsWord ends_action (c ∷ t.front) =
      (ground arith, All-not-Lacks ends_action t.front t.passes) in
    let (n, cursor, cmd, e, short, sound) =
      action-Parsed front (c ∷ t.front) t.back stale old blanks word t.clean t.stops in
    let tail : t.front ++ line_of t.back stale ≡ line_of cs stale =
      sym (append_assoc t.front t.back (0 ∷ 0 ∷ stale))
      ∙ ap (λ k. line_of k stale) (sym t.joined) in
    command n cursor cmd
      (subst (λ k. parse true (front ++ c ∷ k) old ≡ done (true, cursor, cmd)) tail e)
      (omega (arith, t.shorter, length-append front (c ∷ cs))) sound

-- If there is memory for the arguments, on every text without NULs that two NULs follow, whatever bytes stand behind them and whatever
-- the command held before, `parse` ends, reads no byte behind the second NUL, and either finds
-- blanks alone or leaves a strictly shorter text.
pub parse-Parsed :
    (text stale : Bytes) (old : Command)
    → Lacks is_nul text
    → Parsed stale text old (parse true (line_of text stale) old)
parse-Parsed text stale old clean =
    let s = split isspace text clean in
    let line : s.front ++ line_of s.back stale ≡ line_of text stale =
      sym (append_assoc s.front s.back (0 ∷ 0 ∷ stale))
      ∙ ap (λ k. line_of k stale) (sym s.joined) in
    subst₂ (λ t k. Parsed stale t old (parse true k old)) (sym s.joined) line
      (parse-split s.front s.back stale old s.passes s.stops s.clean)
