-- ===== src/Engine/Names.antt =====
-- The names of composite keys, put together in src/crdt/merge.rs and taken apart in
-- src/api/engine.rs.
use mathlib.Core.List.{reverse, reverse-append}
use conflict_free_oltp_v.Base.{
  ℕ, ◌+◌, ◌-◌, Bool, true, not, some, List, [], ◌∷◌, ◌++◌, all, any, length, take, drop, ◌≡◌, refl,
  ap, ◌∙◌, ◌==◌, arith, Str, str, starts_with, ends_with, split, length-append,
}
use conflict_free_oltp_v.Crdt.Merge.{composite_key_name, join}
use conflict_free_oltp_v.Engine.Columns.{cols_to_null}

-- The name of a column has no comma.
abbrev pub is_plain : Str → Bool
is_plain s = not (any (λ c. c == 44) s)

starts_with-append : (p s : Str) → starts_with (p ++ s) p ≡ true
unfolding starts_with
starts_with-append [] s = refl
starts_with-append (c ∷ p) s = ground (arith, starts_with-append p s)

drop-append : (p s : Str) → drop (length p) (p ++ s) ≡ s
drop-append [] s = refl
drop-append (c ∷ p) s = drop-append p s

take-append : (p s : Str) → take (length p) (p ++ s) ≡ p
take-append [] s = refl
take-append (c ∷ p) s = ap (◌∷◌ c) (take-append p s)

split-plain : (s : Str) → is_plain s ≡ true → split 44 s ≡ s ∷ []
unfolding split
split-plain [] h = refl
split-plain (c ∷ s) h = ground (arith, split-plain s)

split-comma : (s rest : Str) → is_plain s ≡ true → split 44 (s ++ 44 ∷ rest) ≡ s ∷ split 44 rest
unfolding split
split-comma [] rest h = refl
split-comma (c ∷ s) rest h = ground (arith, split-comma s rest)

split-join :
    (col : Str) (cols : List Str)
    → all is_plain (col ∷ cols) ≡ true
    → split 44 (join (str ",") (col ∷ cols)) ≡ col ∷ cols
unfolding join
split-join col [] h = split-plain col (ground arith)
split-join col (next ∷ cols) h =
    split-comma col (join (str ",") (next ∷ cols)) (ground arith)
    ∙ ap (◌∷◌ col) (split-join next cols (ground arith))

length-ends : (l : ℕ) → (13 + (l + 2)) - 15 ≡ l
length-ends l = omega arith

-- A composite name ends with two underscores.
ends_with-append : (s : Str) → ends_with (s ++ str "__") (str "__") ≡ true
ends_with-append s =
    ap (λ t. starts_with t (str "__")) (reverse-append s (str "__"))
    ∙ starts_with-append (str "__") (reverse s)

-- The columns that rebuild_store reads off the name of a composite key are those the name was made
-- of, if there is one and none has a comma.
pub cols_to_null-composite_key_name :
    (col : Str) (cols : List Str)
    → all is_plain (col ∷ cols) ≡ true
    → cols_to_null (composite_key_name (col ∷ cols)) ≡ some (col ∷ cols)
unfolding cols_to_null composite_key_name
cols_to_null-composite_key_name col cols h =
    inner (join (str ",") (col ∷ cols)) (split-join col cols h)
  where
    inner :
        (s : Str)
        → split 44 s ≡ col ∷ cols
        → cols_to_null (str "__composite__" ++ (s ++ str "__")) ≡ some (col ∷ cols)
    inner s e =
        let ends : ends_with (str "__composite__" ++ (s ++ str "__")) (str "__") ≡ true =
          ends_with-append (str "__composite__" ++ s) in
        let starts = starts_with-append (str "__composite__") (s ++ str "__") in
        let size : length (str "__composite__" ++ (s ++ str "__")) ≡ 15 + length s =
          length-append (str "__composite__") (s ++ str "__")
          ∙ ap (λ n. 13 + n) (length-append s (str "__"))
          ∙ omega arith in
        ground (arith, starts, ends, size, e, take-append s (str "__"), length-ends (length s))
