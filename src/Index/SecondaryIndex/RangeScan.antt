-- ===== src/Index/SecondaryIndex/RangeScan.antt =====
-- `range_scan` of src/index/secondary_index.rs against a search of the whole index.
use conflict_free_oltp_v.Base.{
  Bool, true, false, not, Option, List, [], ◌∷◌, map, filter, ◌≡◌, refl, ap, arith, blt, Ord,
  eq_of_beq, Bytes, Str, option_ord, list_ord, nat_ord,
}
use conflict_free_oltp_v.BTree.Entries.{Above, IsSorted}
use conflict_free_oltp_v.Index.SecondaryIndex.{
  KeyParts, IndexKey, index_ord, SecondaryIndex, starts_with, take_while, range_scan,
}

abbrev parts_ord : Ord KeyParts
parts_ord = list_ord

abbrev part_ord : Ord (Option Bytes)
part_ord = option_ord

-- The indexed values are compared first.
not_blt-parts : (j k : IndexKey) → blt j k ≡ true → blt k.key_parts j.key_parts ≡ false
unfolding index_ord
not_blt-parts j k h = ground (arith, parts_ord.cmp_swap j.key_parts k.key_parts)

-- What starts with a prefix is not below it.
starts_with-not_blt : (q prefix : KeyParts) → starts_with q prefix ≡ true → blt q prefix ≡ false
unfolding starts_with list_ord
starts_with-not_blt [] [] h = refl
starts_with-not_blt (b ∷ q) [] h = refl
starts_with-not_blt [] (a ∷ prefix) h = absurd (cc)
starts_with-not_blt (b ∷ q) (a ∷ prefix) h =
    ground (arith, starts_with-not_blt q prefix, eq_of_beq b a)

-- Above the prefix, once a list does not start with it, none that follows does.
starts_with-ends :
    (prefix q r : KeyParts)
    → blt q prefix ≡ false
    → starts_with q prefix ≡ false
    → blt r q ≡ false
    → starts_with r prefix ≡ false
unfolding starts_with list_ord
starts_with-ends [] q r h k l = absurd (cc)
starts_with-ends (a ∷ prefix) [] r h k l = absurd (cc)
starts_with-ends (a ∷ prefix) (b ∷ q) [] h k l = refl
starts_with-ends (a ∷ prefix) (b ∷ q) (c ∷ r) h k l = ground (
  arith,
  starts_with-ends prefix q r,
  eq_of_beq c a,
  part_ord.cmp_swap a b,
  part_ord.eq_of_cmp b a,
)

abbrev start_of : KeyParts → IndexKey
start_of prefix = record { key_parts = prefix; pk_value = [] }

abbrev fits : KeyParts → IndexKey × Str → Bool
fits prefix e = starts_with (e.0).key_parts prefix

not_blt_nil : (s : Str) → blt s [] ≡ false
unfolding list_ord
not_blt_nil [] = refl
not_blt_nil (c ∷ s) = refl

-- A key is at or after the start of a scan exactly if its values are not below the prefix.
blt-start_of : (prefix : KeyParts) (k : IndexKey) → blt k (start_of prefix) ≡ blt k.key_parts prefix
unfolding index_ord list_ord
blt-start_of prefix k = ground (arith, not_blt_nil k.pk_value)

filter-fits_none :
    (prefix : KeyParts) (j : IndexKey) (l : List (IndexKey × Str))
    → blt j.key_parts prefix ≡ false
    → starts_with j.key_parts prefix ≡ false
    → Above j l
    → filter (fits prefix) l ≡ []
filter-fits_none prefix j [] h k a = refl
filter-fits_none prefix j ((i, id) ∷ l) h k a = ground (
  arith,
  filter-fits_none prefix j l h k a.1,
  starts_with-ends prefix j.key_parts i.key_parts h k (not_blt-parts j i (ground arith)),
)

scan-filter :
    (prefix : KeyParts) (l : List (IndexKey × Str))
    → IsSorted l
    → take_while (fits prefix) (filter (λ e. not (blt e.0 (start_of prefix))) l)
      ≡ filter (fits prefix) l
unfolding take_while
scan-filter prefix [] s = refl
scan-filter prefix ((j, id) ∷ l) s = ground (
  arith,
  scan-filter prefix l s.1,
  blt-start_of prefix j,
  starts_with-not_blt j.key_parts prefix,
  filter-fits_none prefix j l,
  s.0,
)

-- A range scan, which starts in the middle of the index and stops early, finds the rows of exactly
-- the keys that start with the prefix, in key order.
pub range_scan-filter :
    (prefix : KeyParts) (idx : SecondaryIndex)
    → range_scan prefix idx
      ≡ map (λ e. e.1) (filter (λ e. starts_with (e.0).key_parts prefix) idx.entries.entries)
unfolding range_scan
range_scan-filter prefix idx =
    ap (map (λ e. e.1)) (scan-filter prefix idx.entries.entries idx.entries.sorted)
