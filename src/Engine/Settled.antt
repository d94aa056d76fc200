-- ===== src/Engine/Settled.antt =====
-- The cascade loop of `rebuild_store` in src/api/engine.rs on a store without orphans.
use conflict_free_oltp_v.Base.{
  true, false, none, some, List, [], ◌∷◌, ◌++◌, map, ◌≡◌, refl, inl, inr, sym, ◌∙◌, arith, beq_refl,
  Option-cases, Str, list_ord, nat_ord,
}
use conflict_free_oltp_v.BTree.{BTreeMap, get}
use conflict_free_oltp_v.BTree.Laws.{get-empty}
use conflict_free_oltp_v.BTree.Entries.{get_entry, get_entry_behind, IsSorted}
use conflict_free_oltp_v.Crdt.Clocks.{HlcTimestamp}
use conflict_free_oltp_v.Crdt.OrSet
use conflict_free_oltp_v.Crdt.OrSet.{OrMapEntry, is_live}
use conflict_free_oltp_v.Crdt.OrSet.Rows.{among, among-visible_rows}
use conflict_free_oltp_v.Crdt.OrSet.Visibility.{is_live_of}
use conflict_free_oltp_v.Crdt.Merge.{ForeignKeyDef, IsIn, here, there}
use conflict_free_oltp_v.Storage.RowStore.{RowStore, TableState, get_table, read_cell}
use conflict_free_oltp_v.Utf8.{from_utf8_lossy}
use conflict_free_oltp_v.Engine.FkCascade.{
  FkEdge, edge, edges_of, fk_map, deleted_parents, deleted_parent, orphans, to_cascade,
  cascade_round, cascade_rounds, cascade_deletions,
}
use conflict_free_oltp_v.Engine.Termination.{NoneLeft}
use conflict_free_oltp_v.Engine.Orphans.{
  IsReference, HasLiveToken, NoOrphans, get-deleted_parents, get_entry_first,
}

-- A row whose parent is deleted refers to an entry that is not live.
no_parent :
    (s : RowStore) (child : Str) (fk : ForeignKeyDef) (t : TableState) (id : Str)
    → get_table child s ≡ some t
    → OrSet.is_visible id t.membership ≡ true
    → ((parent : OrMapEntry) → IsReference s child fk parent → HasLiveToken parent)
    → deleted_parent fk.column (deleted_parents fk.ref_table s) t id ≡ none
unfolding deleted_parents
no_parent s child fk t id at seen live = elim (Option-cases (get id t.rows)) [
  | inl missing ↦ ground arith
  | inr (row, has_row) ↦ elim (Option-cases (read_cell fk.column row)) [
    | inl missing ↦ ground arith
    | inr (value, has_value) ↦ elim (Option-cases (get_table fk.ref_table s)) [
      | inl missing ↦ ground (arith, get-empty {V = HlcTimestamp} (from_utf8_lossy value))
      | inr (parents, has_parents) ↦
          let deletion =
            get-deleted_parents (from_utf8_lossy value) fk.ref_table s parents has_parents in
          elim (Option-cases (get (from_utf8_lossy value) parents.membership.rows)) [
            | inl missing ↦ ground (arith, deletion)
            | inr (parent, has_parent) ↦
                let (token, inserted, kept) = live parent (record {
                  table = t;
                  has_table = at;
                  row_id = id;
                  visible = seen;
                  row = row;
                  has_row = has_row;
                  value = value;
                  has_value = has_value;
                  parents = parents;
                  has_parents = has_parents;
                  has_parent = has_parent;
                }) in
                ground (arith, deletion, is_live_of parent token inserted kept)
          ]
    ]
  ]
]

no_orphan_rows :
    (column : Str) (deleted : BTreeMap Str HlcTimestamp) (t : TableState) (ids : List Str)
    → ((id : Str) → among id ids ≡ true → deleted_parent column deleted t id ≡ none)
    → orphans column deleted t ids ≡ []
unfolding orphans
no_orphan_rows column deleted t [] h = refl
no_orphan_rows column deleted t (j ∷ ids) h =
    let rest = no_orphan_rows column deleted t ids (λ id m. h id (ground arith)) in
    ground (arith, rest, h j, beq_refl j)

no_cascade :
    (s : RowStore) (child : Str) (fk : ForeignKeyDef)
    → ((parent : OrMapEntry) → IsReference s child fk parent → HasLiveToken parent)
    → to_cascade (edge child fk) s ≡ []
unfolding to_cascade
no_cascade s child fk live = elim (Option-cases (get_table child s)) [
  | inl missing ↦ ground arith
  | inr (t, at) ↦
      let clean =
        no_orphan_rows fk.column (deleted_parents fk.ref_table s) t
          (OrSet.visible_rows t.membership)
          (λ id m.
            no_parent s child fk t id at (sym (among-visible_rows id t.membership) ∙ m) live) in
      ground (arith, clean)
]

NoneLeft-map :
    (child : Str) (fks : List ForeignKeyDef) (s : RowStore)
    → ((fk : ForeignKeyDef) → IsIn fk fks → to_cascade (edge child fk) s ≡ [])
    → (rest : List FkEdge) → NoneLeft rest s
    → NoneLeft (map (edge child) fks ++ rest) s
NoneLeft-map child [] s h rest r = r
NoneLeft-map child (fk ∷ fks) s h rest r =
    (h fk here, NoneLeft-map child fks s (λ k i. h k (there i)) rest r)

NoneLeft-entries :
    (l : List (Str × TableState)) (s : RowStore)
    → IsSorted l
    → ((child : Str) (t : TableState) (fk : ForeignKeyDef)
        → get_entry child l ≡ some t
        → IsIn fk t.schema.foreign_keys
        → to_cascade (edge child fk) s ≡ [])
    → NoneLeft (edges_of l) s
unfolding edges_of
NoneLeft-entries [] s sorted h = tt
NoneLeft-entries ((j, w) ∷ l) s sorted h =
    NoneLeft-map j w.schema.foreign_keys s (λ fk i. h j w fk (get_entry_first j w l) i) (edges_of l)
      (NoneLeft-entries l s sorted.1
        (λ child t fk at i. h child t fk (get_entry_behind j child w t l sorted.0 at) i))

cascade_round-NoneLeft :
    (fks : List FkEdge) (s : RowStore) → NoneLeft fks s → cascade_round fks s ≡ (s, false)
unfolding cascade_round
cascade_round-NoneLeft [] s h = refl
cascade_round-NoneLeft (fk ∷ fks) s h = rw (cascade_round, h.0) (cascade_round-NoneLeft fks s h.1)

-- The cascade loop of rebuild_store leaves a store as it is in which every row that a visible row
-- refers to by a foreign key of the schemas has a token that was inserted and not removed, if there
-- is such a row at all.
pub cascade_deletions-unchanged : (s : RowStore) → NoOrphans s s → cascade_deletions s ≡ some s
unfolding cascade_deletions cascade_rounds fk_map get
cascade_deletions-unchanged s h =
    let clean : NoneLeft (fk_map s) s =
      NoneLeft-entries s.tables.entries s s.tables.sorted
        (λ child t fk at i. no_cascade s child fk (λ parent r. h child t fk parent at i r)) in
    ground (arith, cascade_round-NoneLeft (fk_map s) s clean)
