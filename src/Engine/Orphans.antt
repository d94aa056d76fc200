-- ===== src/Engine/Orphans.antt =====
-- The cascade loop of `rebuild_store` in src/api/engine.rs, by the rows that it looks for: visible
-- rows that refer by a foreign key of a schema to a row without a live token.
use mathlib.Core.Option.{some-injective}
use conflict_free_oltp_v.Base.{
  true, false, Option, none, some, List, [], ◌∷◌, ◌++◌, map, ◌≡◌, refl, inl, inr, sym, ap, ◌∙◌,
  subst, arith, beq, beq_refl, eq_of_beq, Bool-cases, Option-cases, Bytes, Str, list_ord, nat_ord,
  Ord, if◌then◌else◌,
}
use conflict_free_oltp_v.BTree.{BTreeMap, empty, get, insert, contains}
use conflict_free_oltp_v.BTree.Entries.{IsSorted, get_entry, get_entry-Above, Above-trans}
use conflict_free_oltp_v.BTree.Laws.{get-insert, get-empty}
use conflict_free_oltp_v.Crdt.Clocks.{HlcTimestamp}
use conflict_free_oltp_v.Crdt.Token.{Token, token_ord}
use conflict_free_oltp_v.Crdt.OrSet
use conflict_free_oltp_v.Crdt.OrSet.{OrMap, OrMapEntry, is_visible, is_live}
use conflict_free_oltp_v.Crdt.OrSet.Rows.{among, among-visible_rows}
use conflict_free_oltp_v.Crdt.OrSet.Visibility.{token_of_live}
use conflict_free_oltp_v.Crdt.Merge.{ForeignKeyDef, IsIn, here, there}
use conflict_free_oltp_v.Storage.RowStore.{CrdtRow, RowStore, TableState, get_table, read_cell}
use conflict_free_oltp_v.Utf8.{from_utf8_lossy}
use conflict_free_oltp_v.Engine.FkCascade.{
  FkEdge, edge, edges_of, fk_map, deletion_hlc, collect_deleted, deleted_parents, deleted_parent,
  orphans, to_cascade, cascade_deletions,
}
use conflict_free_oltp_v.Engine.Termination.{NoneLeft, cascade_deletions-NoneLeft}

-- The entry of the row that a visible row of the table refers to by the foreign key.
pub record IsReference (s : RowStore) (child : Str) (fk : ForeignKeyDef) (parent : OrMapEntry)
    : Type 0 where
  pub table : TableState
  pub has_table : get_table child s ≡ some table
  pub row_id : Str
  pub visible : is_visible row_id table.membership ≡ true
  pub row : CrdtRow
  pub has_row : get row_id table.rows ≡ some row
  pub value : Bytes
  pub has_value : read_cell fk.column row ≡ some value
  pub parents : TableState
  pub has_parents : get_table fk.ref_table s ≡ some parents
  pub has_parent : get (from_utf8_lossy value) parents.membership.rows ≡ some parent

-- A token was inserted and not removed.
abbrev pub HasLiveToken : OrMapEntry → Type 0
HasLiveToken e = (t : Token) × (contains t e.live ≡ true) × (contains t e.removed ≡ false)

-- Every row that is referred to along the foreign keys of the schemas of the first store is live in
-- the second.
abbrev pub NoOrphans : RowStore → RowStore → Type 0
NoOrphans schemas s =
    (child : Str) (t : TableState) (fk : ForeignKeyDef) (parent : OrMapEntry)
    → get_table child schemas ≡ some t
    → IsIn fk t.schema.foreign_keys
    → IsReference s child fk parent
    → HasLiveToken parent

module _ {ℓ κ} {K : Type ℓ} {V : Type κ} ⦃o : Ord K⦄ where
  pub get_entry_first : (j : K) (w : V) (m : List (K × V)) → get_entry j ((j, w) ∷ m) ≡ some w
  unfolding get_entry
  get_entry_first j w m = ground (arith, o.cmp_refl j)

  get_entry_rest :
      (j k : K) (w : V) (m : List (K × V))
      → IsSorted ((j, w) ∷ m)
      → beq j k ≡ false
      → get_entry k ((j, w) ∷ m) ≡ get_entry k m
  unfolding get_entry
  get_entry_rest j k w m s ne =
      ground (arith, o.cmp_swap k j, get_entry-Above k m, Above-trans k j m, s.0)

-- What the collection of deleted rows knows of a row.
abbrev deletion_of : Option OrMapEntry → Option HlcTimestamp → Option HlcTimestamp
deletion_of none before = before
deletion_of (some e) before = if is_live e then before else some (deletion_hlc e)

get-collect_deleted :
    (id : Str) (l : List (Str × OrMapEntry)) (m : BTreeMap Str HlcTimestamp)
    → IsSorted l
    → get id (collect_deleted l m) ≡ deletion_of (get_entry id l) (get id m)
unfolding collect_deleted get_entry
get-collect_deleted id [] m s = refl
get-collect_deleted id ((j, w) ∷ l) m s = elim (Bool-cases (beq j id)) [
  | inl same ↦
      subst
        (λ i.
          get i (collect_deleted ((j, w) ∷ l) m) ≡ deletion_of (get_entry i ((j, w) ∷ l)) (get i m))
        (eq_of_beq j id same)
        (get-collect_deleted j l (if is_live w then m else insert j (deletion_hlc w) m) s.1
          ∙ ground (
            arith,
            get_entry-Above j l s.0,
            get_entry_first j w l,
            get-insert j j (deletion_hlc w) m,
            beq_refl j,
          ))
  | inr other ↦
      get-collect_deleted id l (if is_live w then m else insert j (deletion_hlc w) m) s.1
      ∙ ground (arith, get_entry_rest j id w l s other, get-insert j id (deletion_hlc w) m)
]

-- The deleted rows of a table are those that are there and not live.
pub get-deleted_parents :
    (id name : Str) (s : RowStore) (t : TableState)
    → get_table name s ≡ some t
    → get id (deleted_parents name s) ≡ deletion_of (get id t.membership.rows) none
unfolding deleted_parents get
get-deleted_parents id name s t at =
    let e = get-collect_deleted id t.membership.rows.entries empty t.membership.rows.sorted in
    ground (arith, e, get-empty {V = HlcTimestamp} id)

-- With no orphan left, no row that was looked at has a deleted parent.
orphan_of_row :
    (column : Str) (deleted : BTreeMap Str HlcTimestamp) (t : TableState) (ids : List Str)
    (id : Str)
    → orphans column deleted t ids ≡ []
    → among id ids ≡ true
    → deleted_parent column deleted t id ≡ none
unfolding orphans
orphan_of_row column deleted t [] id h m = absurd (cc)
orphan_of_row column deleted t (j ∷ ids) id h m =
    elim (Option-cases (deleted_parent column deleted t j)) [
      | inr (ts, at) ↦ absurd (ground arith)
      | inl kept ↦ elim (Bool-cases (beq j id)) [
        | inl same ↦ ap (deleted_parent column deleted t) (sym (eq_of_beq j id same)) ∙ kept
        | inr other ↦ orphan_of_row column deleted t ids id (ground arith) (ground arith)
      ]
    ]

live_of_reference :
    (s : RowStore) (child : Str) (fk : ForeignKeyDef) (parent : OrMapEntry)
    → to_cascade (edge child fk) s ≡ []
    → IsReference s child fk parent
    → HasLiveToken parent
unfolding to_cascade
live_of_reference s child fk parent h r =
    let deleted = deleted_parents fk.ref_table s in
    let clean : orphans fk.column deleted r.table (OrSet.visible_rows r.table.membership) ≡ [] =
      ground (arith, r.has_table) in
    let kept : deleted_parent fk.column deleted r.table r.row_id ≡ none =
      orphan_of_row fk.column deleted r.table (OrSet.visible_rows r.table.membership) r.row_id clean
        (among-visible_rows r.row_id r.table.membership ∙ r.visible) in
    token_of_live parent (
      ground (
        arith,
        kept,
        r.has_row,
        r.has_value,
        r.has_parent,
        get-deleted_parents (from_utf8_lossy r.value) fk.ref_table s r.parents r.has_parents,
      ))

NoneLeft-append :
    (l m : List FkEdge) (s : RowStore) → NoneLeft (l ++ m) s → NoneLeft l s × NoneLeft m s
NoneLeft-append [] m s h = (tt, h)
NoneLeft-append (e ∷ l) m s h = let (a, b) = NoneLeft-append l m s h.1 in ((h.0, a), b)

NoneLeft-edge :
    (child : Str) (fk : ForeignKeyDef) (fks : List ForeignKeyDef) (s : RowStore)
    → NoneLeft (map (edge child) fks) s
    → IsIn fk fks
    → to_cascade (edge child fk) s ≡ []
NoneLeft-edge child fk _ s h here = h.0
NoneLeft-edge child fk _ s h (there {fks} i) = NoneLeft-edge child fk fks s h.1 i

NoneLeft-edges_of :
    (child : Str) (t : TableState) (fk : ForeignKeyDef) (l : List (Str × TableState)) (s : RowStore)
    → NoneLeft (edges_of l) s
    → get_entry child l ≡ some t
    → IsIn fk t.schema.foreign_keys
    → to_cascade (edge child fk) s ≡ []
unfolding edges_of get_entry
NoneLeft-edges_of child t fk [] s h at i = absurd (cc)
NoneLeft-edges_of child t fk ((j, w) ∷ l) s h at i =
    let (first, rest) = NoneLeft-append (map (edge j) w.schema.foreign_keys) (edges_of l) s h in
    elim (Bool-cases (beq child j)) [
      | inl same ↦
          let e = eq_of_beq child j same in
          let first' = subst (λ k. NoneLeft (map (edge k) w.schema.foreign_keys) s) (sym e) first in
          let found : w ≡ t = some-injective w t (ground arith) in
          NoneLeft-edge child fk w.schema.foreign_keys s first'
            (subst (λ x. IsIn fk x.schema.foreign_keys) (sym found) i)
      | inr other ↦ NoneLeft-edges_of child t fk l s rest (ground arith) i
    ]

-- Where no edge has anything to cascade there are no orphans.
pub NoneLeft-NoOrphans : (schemas s : RowStore) → NoneLeft (fk_map schemas) s → NoOrphans schemas s
unfolding fk_map get
NoneLeft-NoOrphans schemas s clean child t fk parent at i r =
    live_of_reference s child fk parent
      (NoneLeft-edges_of child t fk schemas.tables.entries s clean at i) r

-- The cascade loop of rebuild_store ends on every store, in a store where every row that a visible
-- row refers to, by any foreign key that the schema of its table has in the store at the start, has
-- a token that was inserted and not removed, if there is such a row at all.
pub cascade_deletions-NoOrphans :
    (s : RowStore) → (s' : RowStore) × (cascade_deletions s ≡ some s') × NoOrphans s s'
cascade_deletions-NoOrphans s =
    let (s', run, clean) = cascade_deletions-NoneLeft s in (s', run, NoneLeft-NoOrphans s s' clean)
