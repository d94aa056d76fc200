-- ===== src/Crdt/Clocks.antt =====
-- src/crdt/clocks.rs: hybrid logical clocks. The wall clock is an argument of each call; the
-- `u32` and `u64` arithmetic wraps, as it does in a release build.
pub mod Monotone
mod Tests
use conflict_free_oltp_v.Base.{
  ℕ, ◌+◌, ◌%◌, max, Bool, ◌&&◌, List, [], ◌∷◌, ◌≡◌, refl, Ord, pair_ord, nat_ord, list_ord, ord_by,
  ltb, ◌==◌, if◌then◌else◌, Str, u32_range, u64_range, arith,
}

pub record HlcTimestamp : Type 0 where
  pub wall_ms : ℕ
  pub logical : ℕ
  pub peer_id : Str

abbrev pub stamp_key : HlcTimestamp → ℕ × (ℕ × Str)
stamp_key t = (t.wall_ms, (t.logical, t.peer_id))

pub stamp_key-injective : (s t : HlcTimestamp) → stamp_key s ≡ stamp_key t → s ≡ t
stamp_key-injective s t e = ground arith

-- `impl Ord for HlcTimestamp`: wall clock, then logical counter, then peer.
instance unfoldable pub stamp_ord : Ord HlcTimestamp
stamp_ord = ord_by stamp_key stamp_key-injective

pub record HlcClock : Type 0 where
  pub peer_id : Str
  pub max_wall_ms : ℕ
  pub max_logical : ℕ

unfoldable pub new_clock : Str → HlcClock
new_clock peer = record { peer_id = peer; max_wall_ms = 0; max_logical = 0 }

unfoldable pub tick : HlcClock → ℕ → HlcClock × HlcTimestamp
tick c wall =
    if ltb c.max_wall_ms wall
    then (
      record c { max_wall_ms = wall; max_logical = 0 },
      record { wall_ms = wall; logical = 0; peer_id = c.peer_id },
    )
    else let logical = (c.max_logical + 1) % u64_range in
      (
        record c { max_logical = logical },
        record { wall_ms = c.max_wall_ms; logical = logical % u32_range; peer_id = c.peer_id },
      )

-- The logical counter that `observe` chooses.
observed_logical : (max_wall prev_wall prev_logical : ℕ) → HlcTimestamp → ℕ
observed_logical max_wall prev_wall prev_logical remote =
    if (max_wall == prev_wall) && (max_wall == remote.wall_ms)
    then (max prev_logical remote.logical + 1) % u32_range
    else if max_wall == prev_wall
    then (prev_logical + 1) % u32_range
    else if max_wall == remote.wall_ms
    then (remote.logical + 1) % u32_range
    else 0

unfoldable pub observe : HlcClock → ℕ → HlcTimestamp → HlcClock × HlcTimestamp
unfolding observed_logical
observe c wall remote =
    let max_wall = max (max wall c.max_wall_ms) remote.wall_ms in
    let logical = observed_logical max_wall c.max_wall_ms (c.max_logical % u32_range) remote in
    (
      record c { max_wall_ms = max_wall; max_logical = logical },
      record { wall_ms = max_wall; logical = logical; peer_id = c.peer_id },
    )
