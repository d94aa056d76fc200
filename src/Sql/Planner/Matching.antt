-- ===== src/Sql/Planner/Matching.antt =====
-- The rows that a filter selects, as src/sql/planner.rs lists them and as a test of one row.
use conflict_free_oltp_v.Base.{Bool, ◌&&◌, Option, ◌≡◌, Str, list_ord, nat_ord}
use conflict_free_oltp_v.Crdt.OrSet.{is_visible}
use conflict_free_oltp_v.Crdt.OrSet.Rows.{among}
use conflict_free_oltp_v.Storage.RowStore.{TableState}
use conflict_free_oltp_v.Storage.RowStore.Rows.{row_passes, among-ids_where}
use conflict_free_oltp_v.Sql.Filter.{SqlExpr, matches}
use conflict_free_oltp_v.Sql.Planner.{matching_rows}

-- The row of the id is visible and passes the filter.
abbrev pub selects : Option SqlExpr → TableState → Str → Bool
selects f t x = is_visible x t.membership && row_passes (matches f) t.rows x

pub among-matching_rows :
    (x : Str) (f : Option SqlExpr) (t : TableState) → among x (matching_rows f t) ≡ selects f t x
unfolding matching_rows
among-matching_rows x f t = among-ids_where x (matches f) t
