-- ===== src/Commands/Values.antt =====
-- The typed arguments of display/threads/commands.c: `parse_color`, `parse_args`, and what they use
-- of the C library's `strtol`. A string is the list of its bytes before the NUL. An error message
-- is its format with the values in it; the format string of `parse_args` is a list of kinds, and
-- the values it stores are typed by it.
use ttds.Prelude.{
  ℕ, zero, suc, ◌+◌, ◌-◌, ◌*◌, ◌/◌, ◌%◌, ◌^◌, Bool, true, false, not, ◌&&◌, ◌||◌, List, [], ◌∷◌,
  Option, none, some, ◌⊎◌, inl, inr, ltb, leb, ◌==◌, if◌then◌else◌,
}
use ttds.Prelude.Int.{ℤ, pos, negsuc}
use ttds.Prelude.Text.{Bytes, length}
use ttds.Prelude.Run.{Run, done, fault, fatal, out_of_bounds, use_after_free, ◌>>=◌}
use ttds.Canvas.{Color}
use ttds.Panes.{Failure}
use ttds.Commands.{isspace, Argv, null, live, dangling}

-- The value of a digit or a letter; 36 for any other byte.
abbrev pub digit : ℕ → ℕ
digit c =
    if leb b'0' c && leb c b'9'
    then c - b'0'
    else if leb b'a' c && leb c b'z'
    then c - b'a' + 10
    else if leb b'A' c && leb c b'Z'
    then c - b'A' + 10
    else 36

-- The number that the digits at the front say, onto `acc`, and what follows them.
unfoldable pub read_digits : ℕ → ℕ → Bytes → ℕ × Bytes
read_digits base acc [] = (acc, [])
read_digits base acc (c ∷ cs) =
    let rest = read_digits base (acc * base + digit c) cs in
    if ltb (digit c) base then rest else (acc, c ∷ cs)

unfoldable pub skip_blanks : Bytes → Bytes
skip_blanks [] = []
skip_blanks (c ∷ cs) = if isspace c then skip_blanks cs else c ∷ cs

-- The sign, which is true for a minus.
abbrev pub read_sign : Bytes → Bool × Bytes
read_sign [] = (false, [])
read_sign (c ∷ cs) =
    if c == b'-' then (true, cs) else if c == b'+' then (false, cs) else (false, c ∷ cs)

-- The base that a prefix says, and where the digits begin. A prefix counts if a digit follows it.
abbrev pub read_prefix : ℕ → Bytes → ℕ × Bytes
read_prefix base (z ∷ x ∷ d ∷ cs) =
    if z == b'0' && (x == b'x' || x == b'X') && ltb (digit d) 16 && (base == 0 || base == 16)
    then (16, d ∷ cs)
    else if z == b'0' && (x == b'b' || x == b'B') && ltb (digit d) 2 && base == 0
    then (2, d ∷ cs)
    else (if base == 0 then if z == b'0' then 8 else 10 else base, z ∷ x ∷ d ∷ cs)
read_prefix base (z ∷ cs) = (if base == 0 then if z == b'0' then 8 else 10 else base, z ∷ cs)
read_prefix base [] = (base, [])

abbrev pub long_max : ℕ
long_max = 9223372036854775807

-- `strtol`: the value, where the text goes on, and whether `errno` is set.
pub record Strtol : Type 0 where
  pub value : ℤ
  pub end : Bytes
  pub range_error : Bool

abbrev pub as_long : Bool → ℕ → ℤ
as_long false n = pos n
as_long true zero = pos 0
as_long true (suc n) = negsuc n

unfoldable pub strtol : Bytes → ℕ → Strtol
strtol text base =
    let sign = read_sign (skip_blanks text) in
    let start = read_prefix base sign.1 in
    let read = read_digits start.0 0 start.1 in
    if length read.1 == length start.1
    then record { value = pos 0; end = text; range_error = false }
    else if sign.0 && ltb (long_max + 1) read.0
    then record { value = negsuc long_max; end = read.1; range_error = true }
    else if not sign.0 && ltb long_max read.0
    then record { value = pos long_max; end = read.1; range_error = true }
    else record { value = as_long sign.0 read.0; end = read.1; range_error = false }

-- A `long` modulo 2 ^ w, which is how it is stored in an unsigned field of `w` bits.
abbrev pub low_bits : ℕ → ℤ → ℕ
low_bits w (pos n) = n % 2 ^ w
low_bits w (negsuc n) = (2 ^ 64 - 1 - n) % 2 ^ w

unfoldable pub parse_color : Bytes → Option Color
parse_color [] = none
parse_color (c ∷ cs) =
    if not (c == b'#')
    then none
    else if not (length (c ∷ cs) == 7)
    then none
    else let result = strtol cs 16 in
      if result.range_error
      then none
      else some (record {
        r = low_bits 64 result.value / 2 ^ 16 % 2 ^ 8;
        g = low_bits 64 result.value / 2 ^ 8 % 2 ^ 8;
        b = low_bits 8 result.value;
      })

-- The letters of a format: `c`, `i` and `s`.
pub data Kind : Type 0 where
  color number text : Kind

abbrev pub Value : Kind → Type 0
Value color = Color
Value number = ℤ
Value text = Bytes

abbrev pub Values : List Kind → Type 0
Values [] = Unit {0}
Values (k ∷ ks) = Value k × Values ks

-- What an action answers in place of the null pointer: the messages of `parse_args`, of the
-- actions, and of `call_action`.
pub data Reply : Type 0 where
  wrong_count : ℕ → ℕ → Reply
  expected : Kind → Bytes → Reply
  failed : Bytes → Failure → Reply
  no_such_action : Bytes → Reply
  terminating : Reply
  pane_count : ℕ → Reply

unfoldable pub parse_value : (k : Kind) → Bytes → Option (Value k)
parse_value color arg = parse_color arg
parse_value number arg =
    let result = strtol arg 0 in if length result.end == 0 then some result.value else none
parse_value text arg = some arg

-- The loop of `parse_args` over the arguments, `argv[i]` and later ones.
unfoldable pub parse_each : (ks : List Kind) → List Bytes → Run (Reply ⊎ Values ks)
parse_each [] args = done (inr tt)
parse_each (k ∷ ks) [] = fault out_of_bounds
parse_each (k ∷ ks) (arg ∷ args) = elim (parse_value k arg) [
  | none ↦ done (inl (expected k arg))
  | some v ↦ parse_each ks args >>= λ rest. elim rest [
    | inl reply ↦ done (inl reply)
    | inr vs ↦ done (inr (v, vs))
  ]
]

-- `argv[i]` is read only if the format has a letter.
abbrev pub read_argv : (ks : List Kind) → Argv → Run (Reply ⊎ Values ks)
read_argv [] argv = done (inr tt)
read_argv (k ∷ ks) null = fault out_of_bounds
read_argv (k ∷ ks) dangling = fault use_after_free
read_argv (k ∷ ks) (live args) = parse_each (k ∷ ks) args

-- The flag says whether there is memory for the message.
unfoldable pub parse_args : Bool → (ks : List Kind) → ℕ → Argv → Run (Reply ⊎ Values ks)
parse_args memory ks argc argv =
    if not memory
    then fault fatal
    else if not (argc == length ks)
    then done (inl (wrong_count argc (length ks)))
    else read_argv ks argv
