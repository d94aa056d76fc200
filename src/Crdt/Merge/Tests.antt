-- ===== src/Crdt/Merge/Tests.antt =====
-- Runs of the schema helpers and of the equality of operations.
use conflict_free_oltp_v.Base.{◌≡◌, refl, some, none, [], ◌∷◌, str, true, false, list_ord}
use conflict_free_oltp_v.Crdt.Clocks.{HlcTimestamp}
use conflict_free_oltp_v.Crdt.Merge.{
  CrdtOp, CrdtOp-discrete, same_op, composite_key_name, composite_key_value,
}

abbrev stamp : HlcTimestamp
stamp = record { wall_ms = 100; logical = 0; peer_id = str "A" }

abbrev insert : CrdtOp
insert = CrdtOp.insert_row (str "t") (str "r1") stamp ((str "c", some (str "v")) ∷ [])

abbrev insert_null : CrdtOp
insert_null = CrdtOp.insert_row (str "t") (str "r1") stamp ((str "c", none) ∷ [])

decides : (same_op insert insert ≡ true) × (same_op insert insert_null ≡ false)
unfolding CrdtOp-discrete
decides = (refl, refl)

key_name : composite_key_name (str "a" ∷ str "b" ∷ []) ≡ str "__composite__a,b__"
unfolding composite_key_name
key_name = refl

key_value :
    composite_key_value (str "a" ∷ str "b" ∷ []) ((str "b", some (str "x")) ∷ [])
    ≡ some (0 ∷ str "x")
unfolding composite_key_value list_ord
key_value = refl
