-- ===== src/Storage/RowStore/Tests.antt =====
-- Stores with one table, merged.
use conflict_free_oltp_v.Base.{
  ◌≡◌, refl, some, [], Str, str, list_ord, nat_ord, arith, Bool-cases, inl, inr, beq, eq_of_beq,
  subst,
}
use conflict_free_oltp_v.BTree.{insert, empty}
use conflict_free_oltp_v.BTree.Join.{IsJoin}
use conflict_free_oltp_v.BTree.Laws.{get-empty, get-insert}
use conflict_free_oltp_v.Crdt.OrSet.{OrMap}
use conflict_free_oltp_v.Crdt.Merge.{TableSchema}
use conflict_free_oltp_v.Storage.RowStore.{RowStore, TableState, CrdtRow, merge}
use conflict_free_oltp_v.Storage.RowStore.Lattice.{Meaning, IsTable, IsStore, IsStore-IsJoin}

abbrev schema : Str → TableSchema
schema name = record {
  name = name;
  columns = [];
  foreign_keys = [];
  indexes = [];
  composite_unique_constraints = [];
}

-- Every stamp stands for its own peer's name.
abbrev meaning : Str → Meaning
meaning name = record {
  schema = schema name;
  cell = λ row_id column t. record {
    hlc = record { wall_ms = t.0; logical = t.1; peer_id = t.2 };
    value = some t.2;
  };
}

IsStore-IsJoin_example : IsJoin (IsStore meaning) merge
IsStore-IsJoin_example = IsStore-IsJoin meaning

abbrev with_members : OrMap → TableState
with_members m = record { schema = schema (str "users"); membership = m; rows = empty }

abbrev stored : OrMap → RowStore
stored m = record { tables = insert (str "users") (with_members m) empty }

with_members-IsTable : (m : OrMap) → IsTable (meaning (str "users")) (with_members m)
with_members-IsTable m = record {
  schema = refl;
  rows = λ row_id row at. absurd (ground (arith, get-empty {V = CrdtRow} row_id));
}

stored-IsStore : (m : OrMap) → IsStore meaning (stored m)
stored-IsStore m name t at = elim (Bool-cases (beq (str "users") name)) [
  | inl same ↦
      let is_it : with_members m ≡ t =
        ground (arith, get-insert (str "users") name (with_members m) empty, at) in
      let named = eq_of_beq (str "users") name same in
      subst (λ n. IsTable (meaning n) t) named
        (subst (IsTable (meaning (str "users"))) is_it (with_members-IsTable m))
  | inr other ↦ absurd (
      ground (
        arith,
        get-insert (str "users") name (with_members m) empty,
        get-empty {V = TableState} name,
      ))
]

-- Two peers' stores merge to one, in either order.
merged_either_way : (m n : OrMap) → merge (stored m) (stored n) ≡ merge (stored n) (stored m)
merged_either_way m n =
    IsStore-IsJoin_laws.comm (stored m) (stored n) (stored-IsStore m) (stored-IsStore n)
  where
    IsStore-IsJoin_laws : IsJoin (IsStore meaning) merge
    IsStore-IsJoin_laws = IsStore-IsJoin meaning
