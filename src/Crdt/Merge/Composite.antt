-- ===== src/Crdt/Merge/Composite.antt =====
-- The composite keys of src/crdt/merge.rs: a name and a value for a set of columns.
use conflict_free_oltp_v.Base.{
  Option, some, List, [], ◌∷◌, ◌++◌, map, find, and_then, unwrap_or, beq, list_ord, nat_ord, Bytes,
  Str, str,
}

-- `parts.join(separator)`, which is also the loop that puts a separator before all but the first.
unfoldable pub join : Bytes → List Bytes → Bytes
join separator [] = []
join separator (part ∷ []) = part
join separator (part ∷ next ∷ rest) = part ++ (separator ++ join separator (next ∷ rest))

unfoldable pub composite_key_name : List Str → Str
unfolding join
composite_key_name cols = str "__composite__" ++ (join (str ",") cols ++ str "__")

-- The value of a column among the cells, empty if it is missing or null.
unfoldable pub composite_part : List (Str × Option Bytes) → Str → Bytes
composite_part cells col = unwrap_or [] (and_then (find (λ c. beq c.0 col) cells) (λ c. c.1))

unfoldable pub composite_key_value : List Str → List (Str × Option Bytes) → Option Bytes
unfolding join composite_part
composite_key_value cols cells = some (join (0 ∷ []) (map (composite_part cells) cols))
