-- ===== src/Crdt/OrSet.antt =====
-- src/crdt/orset.rs: the observed-remove map of row membership.
pub mod Lattice
pub mod Visibility
pub mod Rows
mod Tests
use conflict_free_oltp_v.Base.{
  Bool, true, false, not, ◌&&◌, ◌||◌, Option, none, some, List, map, Ord, list_ord, nat_ord, blt,
  any, filter, is_some, if◌then◌else◌, unwrap_or, Str, ◌≡◌,
}
use conflict_free_oltp_v.BTree.{
  BTreeMap, BTreeSet, empty, get, insert, update_entry, absorb, add, contains, union, keys,
}
use conflict_free_oltp_v.Crdt.Clocks.{HlcTimestamp, stamp_ord}
use conflict_free_oltp_v.Crdt.Token.{Token, token_ord, token}

pub record OrMapEntry : Type 0 where
  pub live : BTreeSet Token
  pub removed : BTreeSet Token
  pub tombstone_ts : Option HlcTimestamp

-- `OrMapEntry::default()`
abbrev pub no_entry : OrMapEntry
no_entry = record { live = empty; removed = empty; tombstone_ts = none }

-- `self.live.difference(&self.removed).next().is_some()`
unfoldable pub is_live : OrMapEntry → Bool
is_live e = any (λ t. not (contains t e.removed)) (keys e.live)

abbrev pub is_tombstoned : OrMapEntry → Bool
is_tombstoned e = is_some e.tombstone_ts

abbrev pub is_visible_entry : OrMapEntry → Bool
is_visible_entry e = is_live e && not (is_tombstoned e)

pub record OrMap : Type 0 where
  pub rows : BTreeMap Str OrMapEntry

abbrev pub new : OrMap
new = record { rows = empty }

-- An insertion adds its token and clears the tombstone.
abbrev pub insert_entry : HlcTimestamp → Option OrMapEntry → OrMapEntry
insert_entry hlc before =
    let e = unwrap_or no_entry before in
    record e { live = add (token hlc) e.live; tombstone_ts = none }

unfoldable pub insert_row : Str → HlcTimestamp → OrMap → OrMap
insert_row row_id hlc m = record { rows = update_entry row_id (insert_entry hlc) m.rows }

-- A deletion removes every token that is there, and marks the row if asked to.
abbrev pub delete_entry : HlcTimestamp → Bool → OrMapEntry → OrMapEntry
delete_entry hlc fk_tombstone e = record e {
  removed = union e.removed e.live;
  tombstone_ts = if fk_tombstone then some hlc else e.tombstone_ts;
}

unfoldable pub delete_row : Str → HlcTimestamp → Bool → OrMap → OrMap
delete_row row_id hlc fk_tombstone m = elim (get row_id m.rows) [
  | none ↦ m
  | some e ↦ record { rows = insert row_id (delete_entry hlc fk_tombstone e) m.rows }
]

-- The later of two tombstones.
unfoldable pub later_tombstone : Option HlcTimestamp → Option HlcTimestamp → Option HlcTimestamp
later_tombstone none ts = ts
later_tombstone (some a) none = some a
later_tombstone (some a) (some b) = if blt a b then some b else some a

abbrev pub merge_entry : Str → OrMapEntry → Option OrMapEntry → OrMapEntry
merge_entry row_id other before =
    let e = unwrap_or no_entry before in
    record {
      live = union e.live other.live;
      removed = union e.removed other.removed;
      tombstone_ts = later_tombstone e.tombstone_ts other.tombstone_ts;
    }

unfoldable pub merge : OrMap → OrMap → OrMap
merge m other = record { rows = absorb merge_entry m.rows other.rows }

unfoldable pub is_visible : Str → OrMap → Bool
is_visible row_id m = elim (get row_id m.rows) [ none ↦ false | some e ↦ is_visible_entry e ]

unfoldable pub exists_for_fk : Str → OrMap → Bool
exists_for_fk row_id m = elim (get row_id m.rows) [
  | none ↦ false
  | some e ↦ is_live e || is_tombstoned e
]

-- The rows come out sorted: the sort that follows changes nothing.
unfoldable pub visible_rows : OrMap → List Str
visible_rows m = map (λ e. e.0) (filter (λ e. is_visible_entry e.1) m.rows.entries)
