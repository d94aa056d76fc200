-- ===== src/Constraints/Uniqueness.antt =====
-- src/constraints/uniqueness_protocol.rs: reservations of unique values, and the election among
-- those for one value.
pub mod Election
pub mod Owner
pub mod Elected
mod Tests
use conflict_free_oltp_v.Base.{
  ℕ, zero, suc, ◌+◌, Bool, true, false, not, ◌&&◌, ◌||◌, Option, none, some, List, [], ◌∷◌, ◌++◌,
  map, any, all, filter, find, length, ltb, leb, ◌==◌, beq, blt, Ord, pair_ord, list_ord, nat_ord,
  unwrap_or, map_option, and_then, if◌then◌else◌, Bytes, Str, get_elem?,
}
use conflict_free_oltp_v.BTree.{BTreeMap, empty, get, insert, update_entry, absorb}
use conflict_free_oltp_v.Crdt.Clocks.{HlcTimestamp, stamp_ord}

pub data ReservationState : Type 0 where
  provisional : ReservationState
  won : ReservationState
  lost : Str → Str → ReservationState

pub record Reservation : Type 0 where
  pub value : Bytes
  pub row_id : Str
  pub owner_peer : Str
  pub hlc : HlcTimestamp
  pub state : ReservationState

-- (wall_ms, logical, peer_id, row_id), compared field by field.
abbrev pub claim_key : Reservation → HlcTimestamp × Str
claim_key r = (r.hlc, r.row_id)

abbrev pub beats : Reservation → Reservation → Bool
beats r other = blt (claim_key other) (claim_key r)

pub record ConflictRecord : Type 0 where
  pub unique_column : Str
  pub value : Bytes
  pub loser_row_id : Str
  pub loser_peer : Str
  pub loser_hlc : HlcTimestamp
  pub winner_row_id : Str
  pub winner_peer : Str
  pub winner_hlc : HlcTimestamp

pub record UniqueIndex : Type 0 where
  pub reservations : BTreeMap Bytes (List Reservation)
  pub conflict_log : List ConflictRecord

abbrev pub new_index : UniqueIndex
new_index = record { reservations = empty; conflict_log = [] }

-- `enumerate().max_by(..)`: the last of the greatest elements, from position `i` on.
unfoldable pub winner_from : ℕ → Reservation → ℕ → List Reservation → ℕ × Reservation
winner_from i best n [] = (i, best)
winner_from i best n (r ∷ l) =
    if blt (claim_key r) (claim_key best)
    then winner_from i best (n + 1) l
    else winner_from n r (n + 1) l

abbrev pub conflict : Reservation → Reservation → ConflictRecord
conflict winner r = record {
  unique_column = [];
  value = r.value;
  loser_row_id = r.row_id;
  loser_peer = r.owner_peer;
  loser_hlc = r.hlc;
  winner_row_id = winner.row_id;
  winner_peer = winner.owner_peer;
  winner_hlc = winner.hlc;
}

abbrev pub marked_lost : Reservation → Reservation → Reservation
marked_lost winner r = record r { state = lost winner.row_id winner.owner_peer }

abbrev pub marked_won : Reservation → Reservation
marked_won r = record r { state = won }

-- The loop that marks the winner, at its position, and all others.
unfoldable pub mark : ℕ → Reservation → ℕ → List Reservation → List Reservation
mark winner_idx winner n [] = []
mark winner_idx winner n (r ∷ l) =
    (if n == winner_idx then marked_won r else marked_lost winner r)
    ∷ mark winner_idx winner (n + 1) l

-- The conflicts that the same loop records.
unfoldable pub conflicts : ℕ → Reservation → ℕ → List Reservation → List ConflictRecord
conflicts winner_idx winner n [] = []
conflicts winner_idx winner n (r ∷ l) =
    let rest = conflicts winner_idx winner (n + 1) l in
    if n == winner_idx then rest else conflict winner r ∷ rest

unfoldable pub resolve_list : List Reservation → List Reservation × List ConflictRecord
resolve_list [] = ([], [])
resolve_list (r ∷ []) = (r ∷ [], [])
resolve_list (r ∷ s ∷ l) =
    let (winner_idx, winner) = winner_from 0 r 1 (s ∷ l) in
    (mark winner_idx winner 0 (r ∷ s ∷ l), conflicts winner_idx winner 0 (r ∷ s ∷ l))

unfoldable pub resolve_conflicts_for_value : Bytes → UniqueIndex → UniqueIndex
resolve_conflicts_for_value value idx = elim (get value idx.reservations) [
  | none ↦ idx
  | some l ↦
      let (l', records) = resolve_list l in
      record {
        reservations = insert value l' idx.reservations;
        conflict_log = idx.conflict_log ++ records;
      }
]

-- The same row and peer: the duplicate test of `reserve` and `merge`.
abbrev pub same_claim : Reservation → Reservation → Bool
same_claim r s = beq r.row_id s.row_id && beq r.owner_peer s.owner_peer

-- The result is always `Ok(())`.
unfoldable pub reserve : Reservation → UniqueIndex → UniqueIndex
reserve r idx =
    let entry = unwrap_or [] (get r.value idx.reservations) in
    let entered = record idx { reservations = insert r.value entry idx.reservations } in
    let pushed = record idx { reservations = insert r.value (entry ++ r ∷ []) idx.reservations } in
    if any (λ s. same_claim s r) entry
    then entered
    else if ltb 1 (length (entry ++ r ∷ []))
    then resolve_conflicts_for_value r.value pushed
    else pushed

abbrev pub is_open : Reservation → Bool
is_open r = elim r.state [ provisional ↦ true | won ↦ true | lost w p ↦ false ]

abbrev pub is_lost : Reservation → Bool
is_lost r = not (is_open r)

unfoldable pub canonical_owner : Bytes → UniqueIndex → Option Str
canonical_owner value idx =
    map_option (λ r. r.row_id) (and_then (get value idx.reservations) (find is_open))

unfoldable pub is_available_for : Bytes → Str → UniqueIndex → Bool
is_available_for value row_id idx = elim (get value idx.reservations) [
  | none ↦ true
  | some l ↦ all (λ r. beq r.row_id row_id || is_lost r) l
]

-- Pushes the reservations of the other side that are not there.
unfoldable pub union_claims : List Reservation → List Reservation → List Reservation
union_claims entry [] = entry
union_claims entry (r ∷ l) =
    union_claims (if any (λ e. same_claim e r) entry then entry else entry ++ r ∷ []) l

-- One value of the other index: union, then an election if there are several.
abbrev pub merge_value : UniqueIndex → Bytes → List Reservation → UniqueIndex
merge_value idx value others =
    let entry = union_claims (unwrap_or [] (get value idx.reservations)) others in
    let joined = record idx { reservations = insert value entry idx.reservations } in
    if ltb 1 (length entry) then resolve_conflicts_for_value value joined else joined

unfoldable pub merge_values : UniqueIndex → List (Bytes × List Reservation) → UniqueIndex
merge_values idx [] = idx
merge_values idx ((value, others) ∷ l) = merge_values (merge_value idx value others) l

-- Conflicts are told apart by the loser's and the winner's row.
unfoldable pub merge_log : List ConflictRecord → List ConflictRecord → List ConflictRecord
merge_log log [] = log
merge_log log (c ∷ l) =
    merge_log
      (if any (λ d. beq d.loser_row_id c.loser_row_id && beq d.winner_row_id c.winner_row_id) log
        then log
        else log ++ c ∷ [])
      l

unfoldable pub merge_index : UniqueIndex → UniqueIndex → UniqueIndex
merge_index idx other =
    let merged = merge_values idx other.reservations.entries in
    record merged { conflict_log = merge_log merged.conflict_log other.conflict_log }

unfoldable pub losers : Bytes → UniqueIndex → List Str
losers value idx = elim (get value idx.reservations) [
  | none ↦ []
  | some l ↦ map (λ r. r.row_id) (filter is_lost l)
]

pub record TableUniqueness : Type 0 where
  pub columns : BTreeMap Str UniqueIndex

abbrev pub new_uniqueness : TableUniqueness
new_uniqueness = record { columns = empty }

-- `get_index_mut(column)`, changed by `f`.
unfoldable pub on_index : Str → (UniqueIndex → UniqueIndex) → TableUniqueness → TableUniqueness
on_index column f u = record {
  columns = update_entry column (λ i. f (unwrap_or new_index i)) u.columns;
}

unfoldable pub merge_uniqueness : TableUniqueness → TableUniqueness → TableUniqueness
merge_uniqueness u other = record {
  columns =
      absorb (λ column i before. merge_index (unwrap_or new_index before) i) u.columns
        other.columns;
}
