-- ===== src/Engine/Tests/Cascaded.antt =====
-- A parent that is deleted, its child, and the child's child.
use conflict_free_oltp_v.Base.{
  false, some, List, [], ◌∷◌, ◌≡◌, refl, Str, str, list_ord, nat_ord, ℕ,
}
use conflict_free_oltp_v.BTree.{computes}
use conflict_free_oltp_v.Crdt.Clocks.{HlcTimestamp, stamp_ord}
use conflict_free_oltp_v.Crdt.Token.{token_ord}
use conflict_free_oltp_v.Crdt.MvRegister
use conflict_free_oltp_v.Crdt.OrSet
use conflict_free_oltp_v.Crdt.Merge.{
  TableSchema, CrdtOp, insert_row, delete_row, create_table, composite_key_name,
}
use conflict_free_oltp_v.Storage.RowStore
use conflict_free_oltp_v.Storage.RowStore.{RowStore, apply_op, new_store, get_table}
use conflict_free_oltp_v.Utf8.{from_utf8_lossy}
use conflict_free_oltp_v.Engine.Columns.{cols_to_null}
use conflict_free_oltp_v.Engine.FkCascade.{cascade_deletions, edges_of, fk_map, visible_count}
use conflict_free_oltp_v.Engine.Termination.{NoneLeft}
use conflict_free_oltp_v.Engine.Orphans.{NoOrphans, NoneLeft-NoOrphans, cascade_deletions-NoOrphans}
use conflict_free_oltp_v.Engine.Settled.{cascade_deletions-unchanged}
use conflict_free_oltp_v.Engine.Names.{cols_to_null-composite_key_name}

abbrev stamp : ℕ → HlcTimestamp
stamp wall = record { wall_ms = wall; logical = 0; peer_id = str "A" }

abbrev schema : Str → Str → TableSchema
schema name parent = record {
  name = name;
  columns = [];
  foreign_keys = record { column = str "up"; ref_table = parent; ref_column = str "id" } ∷ [];
  indexes = [];
  composite_unique_constraints = [];
}

abbrev apply_all : List CrdtOp → RowStore → RowStore
apply_all [] s = s
apply_all (op ∷ l) s = apply_all l (apply_op s op)

abbrev family : RowStore
family =
    apply_all
      (create_table (str "a") (schema (str "a") (str "z")) (stamp 1)
        ∷ create_table (str "b") (schema (str "b") (str "a")) (stamp 2)
        ∷ create_table (str "c") (schema (str "c") (str "b")) (stamp 3)
        ∷ insert_row (str "a") (str "1") (stamp 4) []
        ∷ insert_row (str "b") (str "2") (stamp 5) ((str "up", some (str "1")) ∷ [])
        ∷ insert_row (str "c") (str "3") (stamp 6) ((str "up", some (str "2")) ∷ [])
        ∷ delete_row (str "a") (str "1") (stamp 7) false
        ∷ [])
      new_store

cascade_deletions-NoOrphans_example :
    (s' : RowStore) × (cascade_deletions family ≡ some s') × NoOrphans family s'
cascade_deletions-NoOrphans_example = cascade_deletions-NoOrphans family

program : Unit {0}
unfolding cascade_deletions fk_map edges_of visible_count apply_op computes token_ord stamp_ord
    from_utf8_lossy OrSet.insert_row OrSet.delete_row OrSet.is_live OrSet.visible_rows
    MvRegister.write MvRegister.read MvRegister.new RowStore.create RowStore.insert_table_row
    RowStore.delete_table_row RowStore.write_cells RowStore.write_cell RowStore.read_cell
program = tt

-- Rows with a live parent, and one whose parent is of no table.
abbrev tidy : RowStore
tidy =
    apply_all
      (create_table (str "a") (schema (str "a") (str "z")) (stamp 1)
        ∷ create_table (str "b") (schema (str "b") (str "a")) (stamp 2)
        ∷ insert_row (str "a") (str "1") (stamp 3) ((str "up", some (str "0")) ∷ [])
        ∷ insert_row (str "b") (str "2") (stamp 4) ((str "up", some (str "1")) ∷ [])
        ∷ [])
      new_store

tidy-NoneLeft : NoneLeft (fk_map tidy) tidy
unfolding program
tidy-NoneLeft = (refl, (refl, tt))

cascade_deletions-unchanged_example : cascade_deletions tidy ≡ some tidy
cascade_deletions-unchanged_example =
    cascade_deletions-unchanged tidy (NoneLeft-NoOrphans tidy tidy tidy-NoneLeft)

two_visible_before : visible_count family ≡ 2
unfolding program
two_visible_before = refl

cols_to_null-composite_key_name_example :
    cols_to_null (composite_key_name (str "user_id" ∷ str "team_id" ∷ []))
    ≡ some (str "user_id" ∷ str "team_id" ∷ [])
cols_to_null-composite_key_name_example =
    cols_to_null-composite_key_name (str "user_id") (str "team_id" ∷ []) refl
