-- ===== src/Crdt/OrSet/Rows.antt =====
-- `visible_rows` of src/crdt/orset.rs against the test of one row.
use conflict_free_oltp_v.Base.{
  Bool, true, false, ◌&&◌, Option, none, some, List, [], ◌∷◌, map, any, filter, ◌≡◌, refl, ◌∙◌,
  arith, beq, beq_refl, eq_of_beq, Option-cases, inl, inr, Bool_ext, Str, list_ord, nat_ord,
}
use conflict_free_oltp_v.BTree.{get}
use conflict_free_oltp_v.BTree.Laws.{get_of_any, any_of_get}
use conflict_free_oltp_v.Crdt.OrSet.{OrMap, OrMapEntry, is_visible, is_visible_entry, visible_rows}

-- An id is in the list.
abbrev pub among : Str → List Str → Bool
among x l = any (λ k. beq k x) l

among-filter :
    (x : Str) (l : List (Str × OrMapEntry))
    → among x (map (λ e. e.0) (filter (λ e. is_visible_entry e.1) l))
      ≡ any (λ e. beq e.0 x && is_visible_entry e.1) l
among-filter x [] = refl
among-filter x ((k, e) ∷ l) = ground (arith, among-filter x l)

-- The visible rows are those that are visible.
pub among-visible_rows : (x : Str) (m : OrMap) → among x (visible_rows m) ≡ is_visible x m
unfolding visible_rows is_visible
among-visible_rows x m =
    among-filter x m.rows.entries
    ∙ Bool_ext (any here m.rows.entries) (seen (get x m.rows)) there back
  where
    here : Str × OrMapEntry → Bool
    here e = beq e.0 x && is_visible_entry e.1

    seen : Option OrMapEntry → Bool
    seen o = elim o [ none ↦ false | some e ↦ is_visible_entry e ]

    there : any here m.rows.entries ≡ true → seen (get x m.rows) ≡ true
    there h = let (k, e, at, holds) = get_of_any here m.rows h in ground (arith, eq_of_beq k x)

    back : seen (get x m.rows) ≡ true → any here m.rows.entries ≡ true
    back h = elim (Option-cases (get x m.rows)) [
      | inl missing ↦ absurd (ground arith)
      | inr (e, at) ↦ any_of_get here x e m.rows at (ground (arith, beq_refl x))
    ]
