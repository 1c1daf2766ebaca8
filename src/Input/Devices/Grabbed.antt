-- ===== src/Input/Devices/Grabbed.antt =====
-- Which descriptors `gather_fds` of display/rendering/drm/input.c waits for, and how many fit.
use mathlib.Core.List.{append_assoc, append-nil}
use ttds.Prelude.{
  ℕ, ◌+◌, ◌≤◌, ◌≡◌, refl, true, false, Bool, List, [], ◌∷◌, ◌++◌, none, some, arith, leb,
  if◌then◌else◌,
}
use ttds.Prelude.Text.{length, length-append}
use ttds.Prelude.Run.{done, fault, out_of_bounds}
use ttds.Input.Keys.{PollFd}
use ttds.Input.Devices.{Entry, entry, unlisted, Inputs, polled, append_fd, gather_loop, gather_fds}

-- Reading the directory never fails.
abbrev pub Listed : List Entry → Type 0
Listed [] = Unit {0}
Listed (entry fd grabs ∷ entries) = Listed entries
Listed (unlisted ∷ entries) = ⊥

-- The descriptors of the entries that open and are grabbed, and of those that open and are not.
abbrev pub opened : Bool → Bool → ℕ → List ℕ → List ℕ
opened true true fd fds = fd ∷ fds
opened false false fd fds = fd ∷ fds
opened true false fd fds = fds
opened false true fd fds = fds

abbrev pub opened_as : Bool → List Entry → List ℕ
opened_as wanted [] = []
opened_as wanted (entry none grabs ∷ entries) = opened_as wanted entries
opened_as wanted (entry (some fd) grabs ∷ entries) =
    opened wanted grabs fd (opened_as wanted entries)
opened_as wanted (unlisted ∷ entries) = opened_as wanted entries

abbrev pub polled_all : List ℕ → List PollFd
polled_all [] = []
polled_all (fd ∷ fds) = polled fd ∷ polled_all fds

length-polled_all : (fds : List ℕ) → length (polled_all fds) ≡ length fds
length-polled_all [] = refl
length-polled_all (fd ∷ fds) = omega (arith, length-polled_all fds)

abbrev with_fds : Inputs → List ℕ → List ℕ → Inputs
with_fds ctx fds closed = record { fds = ctx.fds ++ polled_all fds; closed = ctx.closed ++ closed }

gather_loop-eq :
    (entries : List Entry) (ctx : Inputs)
    → Listed entries
    → length ctx.fds ≤ 33
    → gather_loop entries ctx ≡ (
        if leb (length ctx.fds + length (opened_as true entries)) 33
        then done (with_fds ctx (opened_as true entries) (opened_as false entries))
        else fault out_of_bounds)
unfolding gather_loop append_fd
gather_loop-eq [] ctx listed room = rw (append-nil ctx.fds, append-nil ctx.closed) (ground arith)
gather_loop-eq (unlisted ∷ entries) ctx listed room = elim listed [ ]
gather_loop-eq (entry none grabs ∷ entries) ctx listed room =
    ground (arith, gather_loop-eq entries ctx listed room)
gather_loop-eq (entry (some fd) false ∷ entries) ctx listed room = ground (
  arith,
  gather_loop-eq entries (record ctx { closed = ctx.closed ++ fd ∷ [] }) listed room,
  append_assoc ctx.closed (fd ∷ []) (opened_as false entries),
)
gather_loop-eq (entry (some fd) true ∷ entries) ctx listed room = ground (
  arith,
  gather_loop-eq entries (record ctx { fds = ctx.fds ++ polled fd ∷ [] }) listed,
  append_assoc ctx.fds (polled fd ∷ []) (polled_all (opened_as true entries)),
  length-append ctx.fds (polled fd ∷ []),
)

-- Where the directory can be read to its end, the result depends on how many entries open and are
-- grabbed. Up to 32 of them are waited for, in order, with the cancellation pipe behind them, and
-- what opens and is not grabbed is closed; with more of them the array is written outside.
pub gather_fds-grabbed :
    (entries : List Entry) (cancellation_fd : ℕ)
    → Listed entries
    → gather_fds true entries cancellation_fd ≡ (
        if leb (length (opened_as true entries)) 32
        then done (record {
          fds = polled_all (opened_as true entries) ++ polled cancellation_fd ∷ [];
          closed = opened_as false entries;
        })
        else fault out_of_bounds)
unfolding gather_fds append_fd
gather_fds-grabbed entries cancellation_fd listed =
    rw (gather_loop-eq entries (record { fds = []; closed = [] }) listed (omega arith))
      (ground (arith, length-polled_all (opened_as true entries)))
