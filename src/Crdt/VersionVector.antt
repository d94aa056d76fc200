-- ===== src/Crdt/VersionVector.antt =====
-- The version vectors of src/crdt/clocks.rs. The map that holds them is code of the crate indexmap:
-- a parameter, with what its documentation says of lookups, entries and iteration.
pub mod Causality
mod Tests
use conflict_free_oltp_v.Base.{
  ℕ, Bool, true, false, not, ◌&&◌, ◌||◌, Option, none, some, List, [], ◌∷◌, find, all, ◌≡◌, refl,
  sym, ap, ◌∙◌, arith, beq, blt, beq_refl, eq_of_beq, beq_comm, blt_irrefl, blt_trans,
  not_lt_not_eq, Ord, pair_ord, nat_ord, list_ord, if◌then◌else◌, unwrap_or, map_option, and_then,
  Str, Bool-cases, Option-cases, inl, inr, is_some, fun_ext,
}
use conflict_free_oltp_v.Crdt.Clocks.{HlcTimestamp}

-- (wall_ms, logical), compared field by field.
abbrev pub Seen : Type 0
Seen = ℕ × ℕ

-- No key of the list stands twice.
abbrev pub KeysOnce : List (Str × Seen) → Type 0
KeysOnce [] = Unit {0}
KeysOnce (e ∷ l) = (find (λ x. beq x.0 e.0) l ≡ none) × KeysOnce l

-- `indexmap::IndexMap<String, (u64, u32)>`
pub record IndexMap (M : Type 0) : Type 0 where
  pub empty : M
  pub get : Str → M → Option Seen
  pub set_entry : Str → Seen → M → M
  pub entries : M → List (Str × Seen)
  pub get-empty : (k : Str) → get k empty ≡ none
  pub get-set_entry :
      (k j : Str) (v : Seen) (m : M)
      → get j (set_entry k v m) ≡ (if beq k j then some v else get j m)
  pub get-entries :
      (k : Str) (m : M) → get k m ≡ map_option (λ e. e.1) (find (λ e. beq e.0 k) (entries m))
  pub entries-KeysOnce : (m : M) → KeysOnce (entries m)

abbrev pub stamp_seen : HlcTimestamp → Seen
stamp_seen ts = (ts.wall_ms, ts.logical)

-- `if v > *entry { *entry = v }`, on the entry or (0, 0).
abbrev pub raised : Seen → Option Seen → Seen
raised v before = let old = unwrap_or (0, 0) before in if blt old v then v else old

-- The entry of a peer after a merge.
abbrev pub join_seen : Option Seen → Option Seen → Option Seen
join_seen before none = before
join_seen before (some v) = some (raised v before)

module _ {M : Type 0} (index_map : IndexMap M) where
  unfoldable pub raise : Str → Seen → M → M
  raise peer v m = index_map.set_entry peer (raised v (index_map.get peer m)) m

  unfoldable pub observe : HlcTimestamp → M → M
  unfolding raise
  observe ts m = raise ts.peer_id (stamp_seen ts) m

  unfoldable pub dominates_ts : HlcTimestamp → M → Bool
  dominates_ts ts m = elim (index_map.get ts.peer_id m) [
    | none ↦ false
    | some v ↦ not (blt v (stamp_seen ts))
  ]

  unfoldable pub merge_entries : M → List (Str × Seen) → M
  unfolding raise
  merge_entries m [] = m
  merge_entries m ((peer, v) ∷ l) = merge_entries (raise peer v m) l

  unfoldable pub merge : M → M → M
  unfolding merge_entries
  merge m other = merge_entries m (index_map.entries other)

  -- `map(..).unwrap_or(false)`
  abbrev pub covers : M → Str × Seen → Bool
  covers other e = elim (index_map.get e.0 other) [ none ↦ false | some v ↦ not (blt v e.1) ]

  unfoldable pub dominated_by : M → M → Bool
  dominated_by m other = all (covers other) (index_map.entries m)

  get-raise :
      (k j : Str) (v : Seen) (m : M)
      → index_map.get j (raise k v m)
        ≡ (if beq k j then some (raised v (index_map.get k m)) else index_map.get j m)
  unfolding raise
  get-raise k j v m = index_map.get-set_entry k j (raised v (index_map.get k m)) m

  find-seen : Str → List (Str × Seen) → Option Seen
  find-seen k l = map_option (λ e. e.1) (find (λ e. beq e.0 k) l)

  get-merge_entries :
      (k : Str) (m : M) (l : List (Str × Seen))
      → KeysOnce l
      → index_map.get k (merge_entries m l) ≡ join_seen (index_map.get k m) (find-seen k l)
  unfolding merge_entries find-seen
  get-merge_entries k m [] once = refl
  get-merge_entries k m ((peer, v) ∷ l) once = elim (Bool-cases (beq peer k)) [
    | inl same ↦ ground (
      arith,
      get-merge_entries k (raise peer v m) l once.1,
      get-raise peer k v m,
      eq_of_beq peer k same,
      ap (λ j. find (λ x. beq x.0 j) l) (eq_of_beq peer k same),
      once.0,
    )
    | inr other ↦
        ground (arith, get-merge_entries k (raise peer v m) l once.1, get-raise peer k v m)
  ]

  -- A merge takes, for each peer, the greater of the two entries.
  pub get-merge :
      (k : Str) (m other : M)
      → index_map.get k (merge m other) ≡ join_seen (index_map.get k m) (index_map.get k other)
  unfolding merge find-seen
  get-merge k m other =
      get-merge_entries k m (index_map.entries other) (index_map.entries-KeysOnce other)
      ∙ ap (join_seen (index_map.get k m)) (sym (index_map.get-entries k other))
