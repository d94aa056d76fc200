-- ===== src/Crdt/Clocks/Monotone.antt =====
-- Histories of calls of the clock of src/crdt/clocks.rs.
use conflict_free_oltp_v.Base.{
  ℕ, ◌+◌, ◌≤◌, ◌<◌, ◌≡◌, ◌⊎◌, List, [], ◌∷◌, u32_range, arith, length, subst, sym,
}
use conflict_free_oltp_v.Crdt.Clocks.{HlcTimestamp, HlcClock, tick, observe}

-- The stamp that a clock last gave out, or 0:0 before the first.
abbrev pub current : HlcClock → HlcTimestamp
current c = record { wall_ms = c.max_wall_ms; logical = c.max_logical; peer_id = c.peer_id }

-- One stamp is later than another by its clock readings, whatever the peers.
abbrev pub Later : HlcTimestamp → HlcTimestamp → Type 0
Later s t = (s.wall_ms < t.wall_ms) ⊎ ((s.wall_ms ≡ t.wall_ms) × (s.logical < t.logical))

-- A call on a clock: a local event, or a stamp received.
pub data Event : Type 0 where
  local : ℕ → Event
  receive : ℕ → HlcTimestamp → Event

pub step : HlcClock → Event → HlcClock × HlcTimestamp
step c (local wall) = tick c wall
step c (receive wall remote) = observe c wall remote

-- The counter that an event may carry in.
abbrev pub incoming : Event → ℕ
incoming (local wall) = 0
incoming (receive wall remote) = remote.logical

pub tick-Later :
    (c : HlcClock) (wall : ℕ)
    → c.max_logical + 1 < u32_range
    → Later (current c) (tick c wall).1 × ((tick c wall).1 ≡ current (tick c wall).0)
unfolding tick
tick-Later c wall h = ground arith

pub observe-Later :
    (c : HlcClock) (wall : ℕ) (remote : HlcTimestamp)
    → c.max_logical + 1 < u32_range
    → remote.logical + 1 < u32_range
    → Later (current c) (observe c wall remote).1
      × Later remote (observe c wall remote).1
      × ((observe c wall remote).1 ≡ current (observe c wall remote).0)
unfolding observe
observe-Later c wall remote h k = ground arith

-- The stamps that a history of events yields, in order.
pub run : HlcClock → List Event → List HlcTimestamp
run c [] = []
run c (e ∷ es) = (step c e).1 ∷ run (step c e).0 es

-- Each stamp of the list is later than the one before it, the first one than `t`.
abbrev pub Ascends : HlcTimestamp → List HlcTimestamp → Type 0
Ascends t [] = Unit {0}
Ascends t (s ∷ ss) = Later t s × Ascends s ss

-- Every incoming counter is at most `b`.
abbrev pub IncomingLe : ℕ → List Event → Type 0
IncomingLe b [] = Unit {0}
IncomingLe b (e ∷ es) = (incoming e ≤ b) × IncomingLe b es

step-Later :
    (c : HlcClock) (e : Event) (b : ℕ)
    → c.max_logical ≤ b
    → incoming e ≤ b
    → b + 1 < u32_range
    → Later (current c) (step c e).1
      × ((step c e).1 ≡ current (step c e).0)
      × ((step c e).0.max_logical ≤ b + 1)
unfolding step tick observe
step-Later c (local wall) b h k l = ground arith
step-Later c (receive wall remote) b h k l = ground arith

IncomingLe-suc : (b : ℕ) (es : List Event) → IncomingLe b es → IncomingLe (b + 1) es
IncomingLe-suc b [] h = tt
IncomingLe-suc b (e ∷ es) h = (omega arith, IncomingLe-suc b es h.1)

-- Over any history of local events and received stamps whose counters and length leave room in u32,
-- each stamp given out is later than the one before it, whatever the wall clock does.
pub run-Ascends :
    (c : HlcClock) (es : List Event) (b : ℕ)
    → c.max_logical ≤ b
    → IncomingLe b es
    → b + length es < u32_range
    → Ascends (current c) (run c es)
unfolding run
run-Ascends c [] b h k l = tt
run-Ascends c (e ∷ es) b h k l =
    let (later, now, bound) = step-Later c e b h k.0 (omega arith) in
    let rest = run-Ascends (step c e).0 es (b + 1) bound (IncomingLe-suc b es k.1) (omega arith) in
    (later, subst (λ s. Ascends s (run (step c e).0 es)) (sym now) rest)

-- A stamp received is below every stamp that the clock gives out from then on, while counters and
-- length leave room in u32.
pub run-after_receive :
    (c : HlcClock) (wall : ℕ) (remote : HlcTimestamp) (es : List Event) (b : ℕ)
    → c.max_logical ≤ b
    → remote.logical ≤ b
    → IncomingLe b es
    → b + 1 + length es < u32_range
    → Ascends remote (run c (receive wall remote ∷ es))
unfolding run step
run-after_receive c wall remote es b h k i l =
    let ascends = run-Ascends c (receive wall remote ∷ es) b h (k, i) (omega arith) in
    ((observe-Later c wall remote (omega arith) (omega arith)).1, ascends.1)
