-- ===== src/Crdt/OrSet/Visibility.antt =====
-- Which rows of an OR-map of src/crdt/orset.rs a query sees after each operation.
use conflict_free_oltp_v.Base.{
  Bool, true, false, not, ◌||◌, Option, none, some, ◌≡◌, ◌↔◌, refl, sym, ap, ◌∙◌, beq, beq_refl,
  any-map, list_ord, nat_ord, if◌then◌else◌, Str, arith, Option-cases, inl, inr, is_some, Bool_ext,
  eq_of_beq,
}
use conflict_free_oltp_v.BTree.{get, contains, contains_key}
use conflict_free_oltp_v.BTree.Laws.{get-update_entry, get-insert, get_of_any, any_of_get}
use conflict_free_oltp_v.BTree.Sets.{contains-union, contains-add, contains-empty}
use conflict_free_oltp_v.Crdt.Clocks.{HlcTimestamp}
use conflict_free_oltp_v.Crdt.Token.{Token, token_ord, token}
use conflict_free_oltp_v.Crdt.OrSet.{
  OrMapEntry, OrMap, no_entry, is_live, insert_entry, delete_entry, insert_row, delete_row, merge,
  later_tombstone, is_visible, exists_for_fk,
}
use conflict_free_oltp_v.Crdt.OrSet.Lattice.{get-merge, join_option}

-- An entry is live by any token that is inserted and not removed.
pub is_live_of :
    (e : OrMapEntry) (t : Token)
    → contains t e.live ≡ true
    → contains t e.removed ≡ false
    → is_live e ≡ true
unfolding is_live contains_key
is_live_of e t h k = elim (Option-cases (get t e.live)) [
  | inl missing ↦ absurd (ground arith)
  | inr (u, at) ↦
      any-map (λ s. not (contains s e.removed)) (λ z. z.0) e.live.entries
      ∙ any_of_get (λ z. not (contains z.0 e.removed)) t u e.live at (ground arith)
]

-- And a live entry has such a token.
pub token_of_live :
    (e : OrMapEntry)
    → is_live e ≡ true
    → (t : Token) × (contains t e.live ≡ true) × (contains t e.removed ≡ false)
unfolding is_live contains_key
token_of_live e h =
    let (t, u, at, free) =
      get_of_any (λ z. not (contains z.0 e.removed)) e.live
        (sym (any-map (λ s. not (contains s e.removed)) (λ z. z.0) e.live.entries) ∙ h) in
    (t, ground arith, ground arith)

-- The tokens that a row has ever had removed.
unfoldable pub removed_token : Str → OrMap → Token → Bool
removed_token row_id m t = elim (get row_id m.rows) [ none ↦ false | some e ↦ contains t e.removed ]

-- A row inserted under a stamp whose token is not among its removed ones is visible.
pub is_visible-insert_row :
    (row_id : Str) (hlc : HlcTimestamp) (m : OrMap)
    → removed_token row_id m (token hlc) ≡ false
    → is_visible row_id (insert_row row_id hlc m) ≡ true
unfolding is_visible insert_row removed_token
is_visible-insert_row row_id hlc m h = elim (Option-cases (get row_id m.rows)) [
  | inl missing ↦ ground (
    arith,
    get-update_entry row_id row_id (insert_entry hlc) m.rows,
    beq_refl row_id,
    is_live_of (insert_entry hlc none) (token hlc),
    contains-add (token hlc) (token hlc) (no_entry.live),
    beq_refl (token hlc),
    contains-empty (token hlc),
  )
  | inr (e, at) ↦ ground (
    arith,
    get-update_entry row_id row_id (insert_entry hlc) m.rows,
    beq_refl row_id,
    is_live_of (insert_entry hlc (some e)) (token hlc),
    contains-add (token hlc) (token hlc) e.live,
    beq_refl (token hlc),
  )
]

-- A deletion hides its row, with a tombstone or without, and leaves the visibility of every other
-- row.
pub is_visible-delete_row :
    (row_id other : Str) (hlc : HlcTimestamp) (fk : Bool) (m : OrMap)
    → is_visible other (delete_row row_id hlc fk m)
      ≡ (if beq row_id other then false else is_visible other m)
unfolding is_visible delete_row
is_visible-delete_row row_id other hlc fk m = elim (Option-cases (get row_id m.rows)) [
  | inl missing ↦ ground (arith, eq_of_beq row_id other)
  | inr (e, at) ↦
      ground (arith, get-insert row_id other (delete_entry hlc fk e) m.rows, not_live_after e)
]
  where
    not_live_after : (e : OrMapEntry) → is_live (delete_entry hlc fk e) ≡ false
    not_live_after e =
        Bool_ext (is_live (delete_entry hlc fk e)) false
          (λ h.
            let (t, here, gone) = token_of_live (delete_entry hlc fk e) h in
            ground (arith, contains-union t e.removed e.live))
          (λ h. absurd (cc))

-- The row's tokens, and its tombstone, as functions of the map.
unfoldable pub live_token : Str → OrMap → Token → Bool
live_token row_id m t = elim (get row_id m.rows) [ none ↦ false | some e ↦ contains t e.live ]

unfoldable pub has_tombstone : Str → OrMap → Bool
has_tombstone row_id m = elim (get row_id m.rows) [ none ↦ false | some e ↦ is_some e.tombstone_ts ]

-- A row is visible exactly when it has no tombstone and some token that was never removed.
abbrev pub Sees : Str → OrMap → Type 0
Sees row_id m =
    (has_tombstone row_id m ≡ false)
    × ((t : Token) × (live_token row_id m t ≡ true) × (removed_token row_id m t ≡ false))

is_visible_iff : (row_id : Str) (m : OrMap) → (is_visible row_id m ≡ true) ↔ Sees row_id m
unfolding is_visible live_token removed_token has_tombstone
is_visible_iff row_id m = elim (Option-cases (get row_id m.rows)) [
  | inl missing ↦ (λ h. absurd (ground arith), λ s. absurd (ground (arith, s.1.1)))
  | inr (e, at) ↦ (
    λ h.
        let (t, live, free) = token_of_live e (ground arith) in
        (ground arith, (t, ground arith, ground arith)),
    λ s. ground (arith, is_live_of e s.1.0, s.1.1, s.1.2),
  )
]

live_token-merge :
    (row_id : Str) (m n : OrMap) (t : Token)
    → live_token row_id (merge m n) t ≡ (live_token row_id m t || live_token row_id n t)
unfolding live_token
live_token-merge row_id m n t =
    ap tokens (get-merge row_id m n) ∙ split (get row_id m.rows) (get row_id n.rows)
  where
    tokens : Option OrMapEntry → Bool
    tokens o = elim o [ none ↦ false | some e ↦ contains t e.live ]

    split : (a b : Option OrMapEntry) → tokens (join_option a b) ≡ (tokens a || tokens b)
    split none b = refl
    split (some a) none = ground arith
    split (some a) (some b) = contains-union t a.live b.live

removed_token-merge :
    (row_id : Str) (m n : OrMap) (t : Token)
    → removed_token row_id (merge m n) t ≡ (removed_token row_id m t || removed_token row_id n t)
unfolding removed_token
removed_token-merge row_id m n t =
    ap tokens (get-merge row_id m n) ∙ split (get row_id m.rows) (get row_id n.rows)
  where
    tokens : Option OrMapEntry → Bool
    tokens o = elim o [ none ↦ false | some e ↦ contains t e.removed ]

    split : (a b : Option OrMapEntry) → tokens (join_option a b) ≡ (tokens a || tokens b)
    split none b = refl
    split (some a) none = ground arith
    split (some a) (some b) = contains-union t a.removed b.removed

has_tombstone-merge :
    (row_id : Str) (m n : OrMap)
    → has_tombstone row_id (merge m n) ≡ (has_tombstone row_id m || has_tombstone row_id n)
unfolding has_tombstone later_tombstone
has_tombstone-merge row_id m n =
    ap marked (get-merge row_id m n) ∙ split (get row_id m.rows) (get row_id n.rows)
  where
    marked : Option OrMapEntry → Bool
    marked o = elim o [ none ↦ false | some e ↦ is_some e.tombstone_ts ]

    later : (a b : Option HlcTimestamp) → is_some (later_tombstone a b) ≡ (is_some a || is_some b)
    later none b = refl
    later (some a) none = refl
    later (some a) (some b) = ground arith

    split : (a b : Option OrMapEntry) → marked (join_option a b) ≡ (marked a || marked b)
    split none b = refl
    split (some a) none = ground arith
    split (some a) (some b) = later a.tombstone_ts b.tombstone_ts

-- A row is visible after a merge exactly if neither side has a tombstone for it and some token is
-- inserted on one side and removed on neither.
pub is_visible-merge_iff :
    (row_id : Str) (m n : OrMap)
    → (is_visible row_id (merge m n) ≡ true) ↔ (
        ((has_tombstone row_id m || has_tombstone row_id n) ≡ false)
        × ((t : Token) × ((live_token row_id m t || live_token row_id n t) ≡ true)
            × ((removed_token row_id m t || removed_token row_id n t) ≡ false)))
is_visible-merge_iff row_id m n = (
  λ h.
      let (clear, (t, live, free)) = (is_visible_iff row_id (merge m n)).0 h in
      (
        sym (has_tombstone-merge row_id m n) ∙ clear,
        (
          t,
          sym (live_token-merge row_id m n t) ∙ live,
          sym (removed_token-merge row_id m n t) ∙ free,
        ),
      ),
  λ h.
      let t = h.1.0 in
      (is_visible_iff row_id (merge m n)).1 (
        has_tombstone-merge row_id m n ∙ h.0,
        (t, live_token-merge row_id m n t ∙ h.1.1, removed_token-merge row_id m n t ∙ h.1.2),
      ),
)

hidden_of_tombstone :
    (row_id : Str) (m : OrMap)
    → has_tombstone row_id m ≡ true
    → (is_visible row_id m ≡ false) × (exists_for_fk row_id m ≡ true)
unfolding has_tombstone is_visible exists_for_fk
hidden_of_tombstone row_id m h = elim (Option-cases (get row_id m.rows)) [
  | inl missing ↦ absurd (ground arith)
  | inr (e, at) ↦ (ground arith, ground arith)
]

has_tombstone-delete_row :
    (row_id : Str) (hlc : HlcTimestamp) (m : OrMap) (e : OrMapEntry)
    → get row_id m.rows ≡ some e
    → has_tombstone row_id (delete_row row_id hlc true m) ≡ true
unfolding delete_row has_tombstone
has_tombstone-delete_row row_id hlc m e at =
    ground (arith, get-insert row_id row_id (delete_entry hlc true e) m.rows, beq_refl row_id)

-- A row that one OR-map has and deletes with a tombstone is hidden after a merge with any other OR-
-- map, whatever that one inserted, and still exists for foreign keys.
pub tombstone-merge_hides :
    (row_id : Str) (hlc : HlcTimestamp) (m n : OrMap) (e : OrMapEntry)
    → get row_id n.rows ≡ some e
    → (is_visible row_id (merge m (delete_row row_id hlc true n)) ≡ false)
      × (exists_for_fk row_id (merge m (delete_row row_id hlc true n)) ≡ true)
tombstone-merge_hides row_id hlc m n e at =
    hidden_of_tombstone row_id (merge m (delete_row row_id hlc true n)) (
      ground (
        arith,
        has_tombstone-merge row_id m (delete_row row_id hlc true n),
        has_tombstone-delete_row row_id hlc n e at,
      ))
