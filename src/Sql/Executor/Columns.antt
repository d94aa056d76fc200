-- ===== src/Sql/Executor/Columns.antt =====
-- The columns of a result row of src/sql/executor.rs, against the bytes of the values of
-- src/sql/parser.rs.
use conflict_free_oltp_v.Base.{
  beq, eq_of_beq, Bool-cases, Option-cases, inl, inr, true, any, position, list_ord, nat_ord, ℕ,
  zero, suc, ◌*◌, ◌^◌, ◌/◌, ◌<◌, ◌≡◌, ap, ◌∙◌, some, List, [], ◌∷◌, Str, ℤ, InI64, i64_bits,
  i64_bits-lt, i64_of_bits, i64_of_bits-i64_bits, arith,
}
use conflict_free_oltp_v.Storage.Snapshots.{le_bytes}
use conflict_free_oltp_v.Sql.Values.{SqlValue, to_bytes}
use conflict_free_oltp_v.Storage.RowStore.{CrdtRow, read_cell}
use conflict_free_oltp_v.Sql.Executor.{build_result_row, ResultRow, get, get_i64, from_le_bytes}

from_le_bytes-le_bytes : (n v : ℕ) → v < 256 ^ n → from_le_bytes (le_bytes n v) ≡ v
unfolding from_le_bytes le_bytes
from_le_bytes-le_bytes zero v h = omega arith
from_le_bytes-le_bytes (suc n) v h = omega (
  arith,
  from_le_bytes-le_bytes n (v / 256)
      (let e : 256 ^ suc n ≡ 256 * 256 ^ n = omega arith in omega (arith, e)),
)

get_i64-to_bytes :
    (column : Str) (r : ResultRow) (i : ℤ)
    → InI64 i
    → get column r ≡ to_bytes (SqlValue.integer i)
    → get_i64 column r ≡ some i
unfolding get_i64 to_bytes le_bytes
get_i64-to_bytes column r i fits here =
    let v = i64_bits i in
    rw here (
      ap some
        (ap i64_of_bits (from_le_bytes-le_bytes 8 v (i64_bits-lt i)) ∙ i64_of_bits-i64_bits i fits))

-- The value of a column that is among those that the row was built from.
pub get-build_result_row :
    (column : Str) (columns : List Str) (row : CrdtRow)
    → any (λ c. beq c column) columns ≡ true
    → get column (build_result_row columns row) ≡ read_cell column row
unfolding get build_result_row
get-build_result_row column [] row h = absurd (cc)
get-build_result_row column (c ∷ columns) row h = elim (Bool-cases (beq c column)) [
  | inl same ↦ rw same (ground (arith, eq_of_beq c column same))
  | inr other ↦ rw other (elim (Option-cases (position (λ c. beq c column) columns)) [
    | inl missing ↦ ground (arith, get-build_result_row column columns row)
    | inr (i, at) ↦ ground (arith, get-build_result_row column columns row)
  ])
]

-- If a row holds the bytes of an integer of i64 in a column that is selected, get_i64 reads that
-- integer from the result row.
pub get_i64-build_result_row :
    (column : Str) (columns : List Str) (row : CrdtRow) (i : ℤ)
    → any (λ c. beq c column) columns ≡ true
    → InI64 i
    → read_cell column row ≡ to_bytes (SqlValue.integer i)
    → get_i64 column (build_result_row columns row) ≡ some i
get_i64-build_result_row column columns row i listed fits here =
    get_i64-to_bytes column (build_result_row columns row) i fits
      (get-build_result_row column columns row listed ∙ here)
