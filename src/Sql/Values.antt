-- ===== src/Sql/Values.antt =====
-- src/sql/parser.rs: the values of a statement. A float is given by its bits.
use conflict_free_oltp_v.Base.{
  ℕ, Bool, Option, none, some, List, [], ◌∷◌, get_elem?, and_then, if◌then◌else◌, Bytes, Str, ℤ,
  i64_bits,
}
use conflict_free_oltp_v.Storage.Snapshots.{le_bytes}

pub data SqlValue : Type 0 where
  text : Str → SqlValue
  integer : ℤ → SqlValue
  float : ℕ → SqlValue
  boolean : Bool → SqlValue
  null : SqlValue
  placeholder : ℕ → SqlValue

unfoldable pub to_bytes : SqlValue → Option Bytes
to_bytes null = none
to_bytes (text s) = some s
to_bytes (integer i) = some (le_bytes 8 (i64_bits i))
to_bytes (float bits) = some (le_bytes 8 bits)
to_bytes (boolean b) = some ((if b then 1 else 0) ∷ [])
to_bytes (placeholder i) = none

unfoldable pub to_bytes_with_params : List SqlValue → SqlValue → Option Bytes
unfolding to_bytes
to_bytes_with_params params (placeholder i) = and_then (get_elem? params i) to_bytes
to_bytes_with_params params null = to_bytes null
to_bytes_with_params params (text s) = to_bytes (text s)
to_bytes_with_params params (integer i) = to_bytes (integer i)
to_bytes_with_params params (float bits) = to_bytes (float bits)
to_bytes_with_params params (boolean b) = to_bytes (boolean b)
