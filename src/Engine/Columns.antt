-- ===== src/Engine/Columns.antt =====
-- The columns that an election concerns, as `rebuild_store` of src/api/engine.rs reads them off the
-- name of a reservation's column.
use conflict_free_oltp_v.Base.{
  ◌-◌, ◌&&◌, Option, none, some, List, [], ◌∷◌, ltb, length, take, drop, if◌then◌else◌, Str, str,
  starts_with, ends_with, split,
}

-- The columns of a composite key stand between `__composite__` and `__`, with commas between them.
-- The slice panics, `none`, if the two overlap.
unfoldable pub cols_to_null : Str → Option (List Str)
unfolding starts_with split
cols_to_null name =
    if starts_with name (str "__composite__") && ends_with name (str "__")
    then if ltb (length name) 15
      then none
      else some (split 44 (take (length name - 15) (drop 13 name)))
    else some (name ∷ [])
