-- ===== src/Constraints/ForeignKeys/Cascade.antt =====
-- `cascade_delete` of src/constraints/fk_resolution.rs, and the rows that it deletes.
use conflict_free_oltp_v.Base.{
  Bool, true, false, not, ◌&&◌, none, some, List, [], ◌∷◌, map, filter, ◌≡◌, ◌⊎◌, refl, sym, ap,
  ◌∙◌, arith, beq, beq_refl, eq_of_beq, Bool-cases, Option-cases, inl, inr, Str, list_ord, nat_ord,
  option_ord, subst, is_some,
}
use conflict_free_oltp_v.BTree.{get, keys}
use conflict_free_oltp_v.BTree.Laws.{any-keys}
use conflict_free_oltp_v.Crdt.Clocks.{HlcTimestamp}
use conflict_free_oltp_v.Crdt.OrSet.{is_visible}
use conflict_free_oltp_v.Crdt.OrSet.Rows.{among}
use conflict_free_oltp_v.Crdt.OrSet.Visibility.{is_visible-delete_row}
use conflict_free_oltp_v.Crdt.Merge.{ForeignKeyDef, IsIn, here, there}
use conflict_free_oltp_v.Storage.RowStore.{
  CrdtRow, TableState, RowStore, get_table, read_cell, on_table, delete_table_row,
}
use conflict_free_oltp_v.Storage.RowStore.Rows.{
  row_passes, among-ids_where, empty_of_among, get_table-on_table,
}
use conflict_free_oltp_v.Constraints.ForeignKeys.{
  cascade, cascade_delete, child_ids, delete_all, cascade_tables, enforce_on_delete, refers_to,
  fk_columns,
}

module _ (parent_table parent_row_id : Str) where
  abbrev refers : TableState → CrdtRow → Bool
  refers t row = refers_to (fk_columns parent_table t) parent_row_id row

  among-child_ids :
      (x : Str) (t : TableState)
      → among x (child_ids parent_table parent_row_id t)
        ≡ (is_visible x t.membership && row_passes (refers t) t.rows x)
  unfolding child_ids
  among-child_ids x t = among-ids_where x (refers t) t

  -- No visible row of the table holds the id of the parent in a column of one of its foreign keys to
  -- the table of the parent.
  abbrev pub HasNoChild : TableState → Type 0
  HasNoChild t =
      (fk : ForeignKeyDef) (x : Str) (row : CrdtRow)
      → IsIn fk t.schema.foreign_keys
      → fk.ref_table ≡ parent_table
      → get x t.rows ≡ some row
      → read_cell fk.column row ≡ some parent_row_id
      → is_visible x t.membership ≡ false

  refers_by :
      (fk : ForeignKeyDef) (fks : List ForeignKeyDef) (row : CrdtRow)
      → IsIn fk fks
      → fk.ref_table ≡ parent_table
      → read_cell fk.column row ≡ some parent_row_id
      → refers_to
          (map (λ k. k.column) (filter (λ k. beq k.ref_table parent_table) fks))
          parent_row_id
          row
        ≡ true
  refers_by fk _ row (here {fks}) same holds = ground (
    arith,
    ap (λ n. beq n parent_table) same,
    beq_refl parent_table,
    ap (λ v. beq v (some parent_row_id)) holds,
    beq_refl parent_row_id,
  )
  refers_by fk _ row (there {other} {fks} i) same holds =
      ground (arith, refers_by fk fks row i same holds)

  childless : (t : TableState) → child_ids parent_table parent_row_id t ≡ [] → HasNoChild t
  childless t h fk x row i same at holds = ground (
    arith,
    among-child_ids x t,
    ap (among x) h,
    refers_by fk t.schema.foreign_keys row i same holds,
  )

  module _ (hlc : HlcTimestamp) where
    -- Deletions change the membership only, and hide the rows of the list.
    is_visible-delete_all :
        (x : Str) (ids : List Str) (t : TableState)
        → is_visible x (delete_all hlc ids t).membership
          ≡ (is_visible x t.membership && not (among x ids))
    unfolding delete_all delete_table_row
    is_visible-delete_all x [] t = ground arith
    is_visible-delete_all x (id ∷ ids) t = ground (
      arith,
      is_visible-delete_all x ids (delete_table_row id hlc false t),
      is_visible-delete_row id x hlc false t.membership,
    )

    rows-delete_all :
        (ids : List Str) (t : TableState)
        → ((delete_all hlc ids t).rows ≡ t.rows) × ((delete_all hlc ids t).schema ≡ t.schema)
    unfolding delete_all delete_table_row
    rows-delete_all [] t = (refl, refl)
    rows-delete_all (id ∷ ids) t = rows-delete_all ids (delete_table_row id hlc false t)

    -- A table without its children of the parent.
    abbrev orphaned : TableState → TableState
    orphaned t = delete_all hlc (child_ids parent_table parent_row_id t) t

    child_ids-orphaned : (t : TableState) → child_ids parent_table parent_row_id (orphaned t) ≡ []
    child_ids-orphaned t =
        empty_of_among (child_ids parent_table parent_row_id (orphaned t)) (λ x. absent x)
      where
        absent : (x : Str) → among x (child_ids parent_table parent_row_id (orphaned t)) ≡ false
        absent x =
            let (rows, schema) = rows-delete_all (child_ids parent_table parent_row_id t) t in
            let same : row_passes (refers (orphaned t)) (orphaned t).rows x
                ≡ row_passes (refers t) t.rows x =
              ap
                (λ s.
                  row_passes
                    (λ row.
                      refers_to
                        (map (λ fk. fk.column)
                          (filter (λ fk. beq fk.ref_table parent_table) s.foreign_keys))
                        parent_row_id row)
                    (orphaned t).rows x)
                schema
              ∙ ap (λ r. row_passes (refers t) r x) rows in
            among-child_ids x (orphaned t)
            ∙ ground (
              arith,
              same,
              is_visible-delete_all x (child_ids parent_table parent_row_id t) t,
              among-child_ids x t,
            )

    -- The table of a name, if it is there, has no child of the parent.
    abbrev Clean : Str → RowStore → Type 0
    Clean n s =
        (t : TableState) → get_table n s ≡ some t → child_ids parent_table parent_row_id t ≡ []

    -- One table of the loop.
    abbrev ids_of : Str → RowStore → List Str
    ids_of name s = elim (get_table name s) [
      | none ↦ []
      | some t ↦ child_ids parent_table parent_row_id t
    ]

    abbrev cleaned : Str → RowStore → RowStore
    cleaned name s = on_table name (delete_all hlc (ids_of name s)) s

    Clean-here : (name : Str) (s : RowStore) → Clean name (cleaned name s)
    Clean-here name s t h = elim (Option-cases (get_table name s)) [
      | inl missing ↦ absurd (
          ground
            (arith, get_table-on_table name name (delete_all hlc (ids_of name s)) s, beq_refl name))
      | inr (old, at) ↦
          let after : orphaned old ≡ t = ground (
            arith,
            get_table-on_table name name (delete_all hlc (ids_of name s)) s,
            beq_refl name,
          ) in
          subst (λ u. child_ids parent_table parent_row_id u ≡ []) after (child_ids-orphaned old)
    ]

    Clean-kept : (name n : Str) (s : RowStore) → Clean n s → Clean n (cleaned name s)
    Clean-kept name n s clean t h = elim (Bool-cases (beq name n)) [
      | inl same ↦
          subst (λ k. Clean k (cleaned name s)) (eq_of_beq name n same) (Clean-here name s) t h
      | inr other ↦
          clean t (ground (arith, get_table-on_table name n (delete_all hlc (ids_of name s)) s))
    ]

    cascade_tables-Clean :
        (names : List Str) (n : Str) (s : RowStore)
        → Clean n s ⊎ (among n names ≡ true)
        → Clean n (cascade_tables names parent_table parent_row_id hlc s).0
    unfolding cascade_tables
    cascade_tables-Clean [] n s (inl clean) = clean
    cascade_tables-Clean [] n s (inr h) = absurd (cc)
    cascade_tables-Clean (name ∷ names) n s (inl clean) =
        cascade_tables-Clean names n (cleaned name s) (inl (Clean-kept name n s clean))
    cascade_tables-Clean (name ∷ names) n s (inr h) = elim (Bool-cases (beq name n)) [
      | inl same ↦
          cascade_tables-Clean names n (cleaned name s) (
            inl (subst (λ k. Clean k (cleaned name s)) (eq_of_beq name n same) (Clean-here name s)))
      | inr other ↦ cascade_tables-Clean names n (cleaned name s) (inr (ground arith))
    ]

    -- The loop makes no table and drops none.
    cascade_tables-is_some :
        (names : List Str) (n : Str) (s : RowStore)
        → is_some (get_table n (cascade_tables names parent_table parent_row_id hlc s).0)
          ≡ is_some (get_table n s)
    unfolding cascade_tables
    cascade_tables-is_some [] n s = refl
    cascade_tables-is_some (name ∷ names) n s =
        cascade_tables-is_some names n (cleaned name s)
        ∙ ground
            (arith, get_table-on_table name n (delete_all hlc (ids_of name s)) s, eq_of_beq name n)

    -- Once a deletion is enforced under the cascade policy, no table of the store has a visible row
    -- among its child_ids of the parent, or one that holds the id of the parent in a column of a
    -- foreign key of its schema to the table of the parent.
    pub enforce_on_delete-cascades :
        (s : RowStore) (n : Str) (t : TableState)
        → get_table n (enforce_on_delete cascade parent_table parent_row_id hlc s).0 ≡ some t
        → (child_ids parent_table parent_row_id t ≡ []) × HasNoChild t
    unfolding enforce_on_delete cascade_delete
    enforce_on_delete-cascades s n t h =
        let clean = cascade_tables-Clean (keys s.tables) n s (inr listed) t h in
        (clean, childless t clean)
      where
        listed : among n (keys s.tables) ≡ true
        listed =
            any-keys n s.tables ∙ sym (cascade_tables-is_some (keys s.tables) n s) ∙ ap is_some h
