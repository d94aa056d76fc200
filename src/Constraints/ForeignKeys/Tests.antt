-- ===== src/Constraints/ForeignKeys/Tests.antt =====
-- A parent with one child, and a deletion under the cascade policy.
use conflict_free_oltp_v.Base.{
  Option, some, [], ◌∷◌, ◌≡◌, refl, str, list_ord, nat_ord, option_ord, ℕ, map_option, none,
}
use conflict_free_oltp_v.BTree.{computes}
use conflict_free_oltp_v.Crdt.Clocks.{HlcTimestamp, stamp_ord}
use conflict_free_oltp_v.Crdt.Token.{token_ord}
use conflict_free_oltp_v.Crdt.MvRegister
use conflict_free_oltp_v.Crdt.OrSet
use conflict_free_oltp_v.Crdt.Merge.{TableSchema, insert_row, create_table}
use conflict_free_oltp_v.Storage.RowStore
use conflict_free_oltp_v.Storage.RowStore.{RowStore, TableState, apply_op, new_store, get_table}
use conflict_free_oltp_v.Constraints.ForeignKeys.{
  cascade, child_ids, enforce_on_delete, cascade_delete, cascade_tables, delete_all,
  validate_insert,
}
use conflict_free_oltp_v.Constraints.ForeignKeys.Cascade.{HasNoChild, enforce_on_delete-cascades}

abbrev stamp : ℕ → HlcTimestamp
stamp wall = record { wall_ms = wall; logical = 0; peer_id = str "A" }

abbrev members : TableSchema
members = record {
  name = str "members";
  columns = [];
  foreign_keys =
      record { column = str "team"; ref_table = str "teams"; ref_column = str "id" } ∷ [];
  indexes = [];
  composite_unique_constraints = [];
}

abbrev store : RowStore
store =
    apply_op (apply_op new_store (create_table (str "members") members (stamp 1)))
      (insert_row (str "members") (str "m1") (stamp 2) ((str "team", some (str "t1")) ∷ []))

program : Unit {0}
unfolding enforce_on_delete cascade_delete cascade_tables child_ids delete_all validate_insert
    apply_op computes token_ord stamp_ord OrSet.insert_row OrSet.delete_row OrSet.is_live
    OrSet.visible_rows OrSet.exists_for_fk MvRegister.write MvRegister.read RowStore.create
    RowStore.insert_table_row RowStore.write_cells RowStore.write_cell RowStore.read_cell
    RowStore.visible_rows RowStore.delete_table_row RowStore.on_table
program = tt

abbrev after : RowStore
after = (enforce_on_delete cascade (str "teams") (str "t1") (stamp 3) store).0

table_after : (t : TableState) × (get_table (str "members") after ≡ some t)
unfolding program
table_after = table_of (get_table (str "members") after) refl
  where
    table_of :
        (o : Option TableState)
        → map_option (λ t. tt) o ≡ some (tt {0})
        → (t : TableState) × (o ≡ some t)
    table_of none h = absurd (cc)
    table_of (some t) h = (t, refl)

enforce_on_delete-cascades_example :
    (child_ids (str "teams") (str "t1") table_after.0 ≡ [])
    × HasNoChild (str "teams") (str "t1") table_after.0
enforce_on_delete-cascades_example =
    enforce_on_delete-cascades (str "teams") (str "t1") (stamp 3) store (str "members")
      table_after.0 table_after.1
