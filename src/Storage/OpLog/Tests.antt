-- ===== src/Storage/OpLog/Tests.antt =====
-- A log of two operations on two tables, and the theorems about logs at it.
use conflict_free_oltp_v.Base.{
  ◌≡◌, refl, filter, length, [], ◌∷◌, str, Bytes, list_ord, nat_ord, pair_ord, some, ℕ, false,
}
use conflict_free_oltp_v.BTree.{computes}
use conflict_free_oltp_v.Crdt.Clocks.{HlcTimestamp}
use conflict_free_oltp_v.Crdt.Merge.{CrdtOp, CrdtOp-discrete, insert_row, delete_row}
use conflict_free_oltp_v.Storage.OpLog.{LogEntry, OpLog, new, append, ops_for_row}
use conflict_free_oltp_v.Storage.OpLog.Append.{IsLog, new-IsLog, append-IsLog}
use conflict_free_oltp_v.Storage.OpLog.Index.{
  IsIndexed, concerns, new-IsIndexed, append-IsIndexed, ops_for_row-filter,
}

abbrev entry_hash : LogEntry → Bytes
entry_hash e = e.seq ∷ e.prev_hash

abbrev stamp : ℕ → HlcTimestamp
stamp wall = record { wall_ms = wall; logical = 0; peer_id = str "A" }

abbrev put : CrdtOp
put = insert_row (str "users") (str "u1") (stamp 1) ((str "name", some (str "Ann")) ∷ [])

abbrev drop_row : CrdtOp
drop_row = delete_row (str "users") (str "u1") (stamp 2) false

abbrev one : OpLog
one = (append entry_hash put new).0

abbrev two : OpLog
two = (append entry_hash drop_row one).0

appended_twice_stands_once : length ((append entry_hash put two).0).entries ≡ 2
unfolding append CrdtOp-discrete computes
appended_twice_stands_once = refl

append-IsLog_example : IsLog entry_hash two
append-IsLog_example =
    append-IsLog entry_hash drop_row one (append-IsLog entry_hash put new (new-IsLog entry_hash))

one-IsIndexed : IsIndexed one
one-IsIndexed = append-IsIndexed entry_hash put new new-IsIndexed

append-IsIndexed_example : IsIndexed two
append-IsIndexed_example = append-IsIndexed entry_hash drop_row one one-IsIndexed

ops_for_row-filter_example :
    ops_for_row (str "users") (str "u1") two
    ≡ filter (λ e. concerns (str "users", str "u1") e.op) two.entries
ops_for_row-filter_example =
    ops_for_row-filter (str "users") (str "u1") two
      (append-IsIndexed entry_hash drop_row one one-IsIndexed)
