-- ===== src/Sql/Executor/Selection.antt =====
-- `execute_select` of src/sql/executor.rs: which rows it gives, and in which order.
use conflict_free_oltp_v.Base.{
  Ordering, lt, eq, gt, Bool, true, false, ◌&&◌, ◌≡◌, ◌⊎◌, inl, inr, refl, sym, ap, ◌∙◌, Option,
  none, some, List, [], ◌∷◌, map, any, filter, length, reverse, then, is_lt, beq, blt, ◌≺◌,
  unwrap_or, option_ord, list_ord, nat_ord, get_elem?, Ord, Str, Bytes, arith, ok, position,
  Bool-cases, if◌then◌else◌,
}
use conflict_free_oltp_v.Sort.Comparator.{
  IsSorted, insert_with, sort_with, sort_with-IsSorted, count-sort_with,
}
use conflict_free_oltp_v.Storage.RowStore.{
  CrdtRow, RowStore, TableState, get_table, visible_rows, read_cell,
}
use conflict_free_oltp_v.Crdt.Merge.{TableSchema, primary_key_col}
use conflict_free_oltp_v.Sql.Filter.{SqlExpr, matches}
use conflict_free_oltp_v.Sql.Statement.{ParsedStatement, SelectColumns}
use conflict_free_oltp_v.Sql.Executor.{
  ResultRow, get, build_result_row, compare_rows, row_order, default_column, output_columns,
  select_rows, execute_select, directed,
}
use conflict_free_oltp_v.Sql.Executor.Columns.{get-build_result_row}

-- The cell by which a row is put in order: none for a column that is not selected.
abbrev pub order_cell : List Str → Str → CrdtRow → Option Bytes
order_cell columns column row =
    if any (λ c. beq c column) columns then read_cell column row else none

-- The cell of the first column selected.
abbrev pub first_cell : List Str → CrdtRow → Option (Option Bytes)
first_cell [] row = none
first_cell (c ∷ columns) row = some (read_cell c row)

-- Ascending or descending; a cell without a value is the least.
abbrev pub Precedes : Bool → Option Bytes → Option Bytes → Type 0
Precedes true a b = a ≺ b
Precedes false a b = b ≺ a

-- By the columns of ORDER BY, the first that differs, and then by the first column selected.
abbrev pub InOrderBy : List Str → List (Str × Bool) → CrdtRow → CrdtRow → Type 0
InOrderBy columns [] a b = blt (first_cell columns b) (first_cell columns a) ≡ false
InOrderBy columns ((column, asc) ∷ order_by) a b =
    Precedes asc (order_cell columns column a) (order_cell columns column b)
    ⊎ ((order_cell columns column a ≡ order_cell columns column b) × InOrderBy columns order_by a b)

-- Without ORDER BY: the primary key, or the first column selected in a table without one.
abbrev pub key_column : Option Str → List Str → Str
key_column (some key) columns = key
key_column none [] = []
key_column none (c ∷ columns) = c

abbrev pub InOrder : TableSchema → List Str → List (Str × Bool) → CrdtRow → CrdtRow → Type 0
InOrder schema columns [] a b =
    let key = key_column (primary_key_col schema) columns in
    blt (order_cell columns key b) (order_cell columns key a) ≡ false
InOrder schema columns (o ∷ order_by) a b = InOrderBy columns (o ∷ order_by) a b

-- Each element and the next are related.
abbrev pub IsChain {ℓ} : {A : Type ℓ} → (A → A → Type 0) → List A → Type 0
IsChain R [] = Unit {0}
IsChain R (x ∷ []) = Unit {0}
IsChain R (x ∷ y ∷ l) = R x y × IsChain R (y ∷ l)

IsChain-of_sorted {ℓ} :
    {A : Type ℓ} (R : A → A → Type 0) (compare_by : A → A → Ordering)
    → ((x y : A) → is_lt (compare_by y x) ≡ false → R x y)
    → (l : List A) → IsSorted compare_by l
    → IsChain R l
IsChain-of_sorted R compare_by step [] h = tt
IsChain-of_sorted R compare_by step (x ∷ []) h = tt
IsChain-of_sorted R compare_by step (x ∷ y ∷ l) h =
    (step x y h.0, IsChain-of_sorted R compare_by step (y ∷ l) h.1)

-- Sorting the images of rows is sorting the rows.
module _ {ℓ κ} {A : Type ℓ} {B : Type κ} (f : A → B) (compare_by : B → B → Ordering) where
  insert_with-map :
      (x : A) (l : List A)
      → insert_with compare_by (f x) (map f l)
        ≡ map f (insert_with (λ a b. compare_by (f a) (f b)) x l)
  unfolding insert_with
  insert_with-map x [] = refl
  insert_with-map x (y ∷ l) = ground (arith, insert_with-map x l)

  sort_with-map :
      (l : List A)
      → sort_with compare_by (map f l) ≡ map f (sort_with (λ a b. compare_by (f a) (f b)) l)
  unfolding sort_with
  sort_with-map [] = refl
  sort_with-map (x ∷ l) =
      ap (insert_with compare_by (f x)) (sort_with-map l)
      ∙ insert_with-map x (sort_with (λ a b. compare_by (f a) (f b)) l)

no_position :
    (column : Str) (columns : List Str)
    → any (λ c. beq c column) columns ≡ false
    → position (λ c. beq c column) columns ≡ none
no_position column [] h = refl
no_position column (c ∷ columns) h = ground (arith, no_position column columns)

-- A column of a result row is a cell of the row it was built from, if it is selected.
get-order_cell :
    (columns : List Str) (column : Str) (row : CrdtRow)
    → get column (build_result_row columns row) ≡ order_cell columns column row
unfolding get build_result_row
get-order_cell columns column row = elim (Bool-cases (any (λ c. beq c column) columns)) [
  | inl selected ↦ ground (arith, get-build_result_row column columns row selected)
  | inr missing ↦ rw (missing, no_position column columns missing) refl
]

get-first_cell :
    (columns : List Str) (row : CrdtRow)
    → get_elem? (build_result_row columns row).values 0 ≡ first_cell columns row
unfolding build_result_row
get-first_cell [] row = refl
get-first_cell (c ∷ columns) row = refl

-- One column decides, or the rest does.
decided :
    (asc : Bool) (o rest : Ordering)
    → is_lt ((then) (directed asc o) rest) ≡ false
    → (o ≡ (if asc then gt else lt)) ⊎ ((o ≡ eq) × (is_lt rest ≡ false))
decided asc lt rest h = ground arith
decided asc eq rest h = ground arith
decided asc gt rest h = ground arith

precedes :
    (asc : Bool) (a b : Option Bytes)
    → (let o : Ord (Option Bytes) = option_ord in o.cmp b a) ≡ (if asc then gt else lt)
    → Precedes asc a b
precedes true a b h = let o : Ord (Option Bytes) = option_ord in o.cmp_swap b a ∙ ap reverse h
precedes false a b h = h

module _ (columns : List Str) where
  compare_rows-InOrderBy :
      (order_by : List (Str × Bool)) (a b : CrdtRow)
      → is_lt (compare_rows order_by (build_result_row columns b) (build_result_row columns a))
        ≡ false
      → InOrderBy columns order_by a b
  unfolding compare_rows
  compare_rows-InOrderBy [] a b h =
      let o : Ord (Option (Option Bytes)) = option_ord in
      ap (λ x. is_lt (o.cmp x (first_cell columns a))) (sym (get-first_cell columns b))
      ∙ ap (λ x. is_lt (o.cmp (get_elem? (build_result_row columns b).values 0) x))
          (sym (get-first_cell columns a))
      ∙ h
  compare_rows-InOrderBy ((column, asc) ∷ order_by) a b h =
      let o : Ord (Option Bytes) = option_ord ⦃a = list_ord ⦃a = nat_ord⦄⦄ in
      let row_a = build_result_row columns a in
      let row_b = build_result_row columns b in
      let cells : o.cmp (get column row_b) (get column row_a)
          ≡ o.cmp (order_cell columns column b) (order_cell columns column a) =
        ap (λ x. o.cmp x (get column row_a)) (get-order_cell columns column b)
        ∙ ap (o.cmp (order_cell columns column b)) (get-order_cell columns column a) in
      elim (decided asc (o.cmp (get column row_b) (get column row_a))
        (compare_rows order_by row_b row_a) h) [
          | inl differs ↦ inl (
              precedes asc (order_cell columns column a) (order_cell columns column b)
                (sym cells ∙ differs))
          | inr (same, rest) ↦ inr (
            sym (
                o.eq_of_cmp (order_cell columns column b) (order_cell columns column a)
                  (sym cells ∙ same)),
            compare_rows-InOrderBy order_by a b rest,
          )
        ]

  row_order-InOrder :
      (schema : TableSchema) (order_by : List (Str × Bool)) (a b : CrdtRow)
      → is_lt (
          row_order schema columns order_by
            (build_result_row columns b)
            (build_result_row columns a))
        ≡ false
      → InOrder schema columns order_by a b
  unfolding row_order default_column
  row_order-InOrder schema [] a b h =
      let o : Ord (Option Bytes) = option_ord in
      let key = key_column (primary_key_col schema) columns in
      let same : default_column schema columns ≡ key =
        default_key (primary_key_col schema) columns in
      ap (λ x. is_lt (o.cmp x (order_cell columns key a))) (sym (get-order_cell columns key b))
      ∙ ap (λ x. is_lt (o.cmp (get key (build_result_row columns b)) x))
          (sym (get-order_cell columns key a))
      ∙ ap
          (λ k.
            is_lt (o.cmp (get k (build_result_row columns b)) (get k (build_result_row columns a))))
          (sym same)
      ∙ h
    where
      default_key :
          (key : Option Str) (l : List Str)
          → unwrap_or (unwrap_or [] (get_elem? l 0)) key ≡ key_column key l
      default_key (some k) l = refl
      default_key none [] = refl
      default_key none (c ∷ l) = refl
  row_order-InOrder schema (c ∷ order_by) a b h = compare_rows-InOrderBy (c ∷ order_by) a b h

-- Later columns decide where the earlier ones do not.
then_swap :
    (asc : Bool) (x x' y y' : Ordering)
    → x' ≡ reverse x
    → y' ≡ reverse y
    → (then) (directed asc x') y' ≡ reverse ((then) (directed asc x) y)
then_swap true x x' y y' h k = ground arith
then_swap false x x' y y' h k = ground arith

compare_rows_swap :
    (order_by : List (Str × Bool)) (a b : ResultRow)
    → compare_rows order_by b a ≡ reverse (compare_rows order_by a b)
unfolding compare_rows
compare_rows_swap [] a b =
    let o : Ord (Option (Option Bytes)) = option_ord in
    o.cmp_swap (get_elem? a.values 0) (get_elem? b.values 0)
compare_rows_swap ((column, asc) ∷ order_by) a b =
    let o : Ord (Option Bytes) = option_ord in
    then_swap asc (o.cmp (get column a) (get column b)) (o.cmp (get column b) (get column a))
      (compare_rows order_by a b) (compare_rows order_by b a)
      (o.cmp_swap (get column a) (get column b)) (compare_rows_swap order_by a b)

row_order_swap :
    (schema : TableSchema) (columns : List Str) (order_by : List (Str × Bool)) (a b : ResultRow)
    → row_order schema columns order_by b a ≡ reverse (row_order schema columns order_by a b)
unfolding row_order
row_order_swap schema columns [] a b =
    let o : Ord (Option Bytes) = option_ord in
    o.cmp_swap (get (default_column schema columns) a) (get (default_column schema columns) b)
row_order_swap schema columns (c ∷ order_by) a b = compare_rows_swap (c ∷ order_by) a b

count_matching :
    (p : Str × CrdtRow → Bool) (f : Option SqlExpr) (l : List (Str × CrdtRow))
    → length (filter p (filter (λ r. matches f r.1) l))
      ≡ length (filter (λ r. matches f r.1 && p r) l)
count_matching p f [] = refl
count_matching p f (r ∷ l) = ground (arith, count_matching p f l)

-- A SELECT from a table that is there builds its result from exactly the visible rows that the
-- filter selects, each as often as it occurs, so ordered that each row and the next are in order by
-- the first column of ORDER BY in which their cells differ, ascending or descending as it says, and
-- then by the first column selected, or without ORDER BY by the primary key, in a table without one
-- by the first column selected; an order column or key that is not selected counts as none in all
-- rows.
pub execute_select-InOrder :
    (s : RowStore) (table : Str) (t : TableState) (selector : SelectColumns) (f : Option SqlExpr)
    (order_by : List (Str × Bool))
    → get_table table s ≡ some t
    → (chosen : List (Str × CrdtRow)) × (execute_select
          (ParsedStatement.select table selector f order_by)
          s
        ≡ ok (map (λ r. build_result_row (output_columns t.schema selector) r.1) chosen))
      × IsChain (λ a b. InOrder t.schema (output_columns t.schema selector) order_by a.1 b.1) chosen
      × ((p : Str × CrdtRow → Bool)
          → length (filter p chosen) ≡ length (filter (λ r. matches f r.1 && p r) (visible_rows t)))
unfolding execute_select select_rows
execute_select-InOrder s table t selector f order_by here =
    let columns = output_columns t.schema selector in
    let built : Str × CrdtRow → ResultRow = λ r. build_result_row columns r.1 in
    let order = row_order t.schema columns order_by in
    let by_cells : Str × CrdtRow → Str × CrdtRow → Ordering = λ a b. order (built a) (built b) in
    let found = filter (λ r. matches f r.1) (visible_rows t) in
    (
      sort_with by_cells found,
      rw here (ap ok (sort_with-map built order found)),
      IsChain-of_sorted (λ a b. InOrder t.schema columns order_by a.1 b.1) by_cells
          (λ a b. row_order-InOrder columns t.schema order_by a.1 b.1) (sort_with by_cells found)
          (sort_with-IsSorted by_cells
            (λ a b. row_order_swap t.schema columns order_by (built a) (built b)) found),
      λ p. count-sort_with by_cells p found ∙ count_matching p f (visible_rows t),
    )
