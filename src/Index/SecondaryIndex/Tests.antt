-- ===== src/Index/SecondaryIndex/Tests.antt =====
-- A scan of an index on (city, name), by city.
use conflict_free_oltp_v.Base.{
  ◌≡◌, refl, some, [], ◌∷◌, map, filter, Str, str, list_ord, nat_ord, option_ord,
}
use conflict_free_oltp_v.BTree.{computes, insert}
use conflict_free_oltp_v.Index.SecondaryIndex.{
  IndexKey, index_ord, SecondaryIndex, new_index, range_scan, starts_with,
}
use conflict_free_oltp_v.Index.SecondaryIndex.RangeScan.{range_scan-filter}

abbrev key : Str → Str → Str → IndexKey
key city name pk = record { key_parts = some city ∷ some name ∷ []; pk_value = pk }

abbrev by_city : SecondaryIndex
by_city = record (new_index (str "by_city") (str "city" ∷ str "name" ∷ [])) {
  entries = insert (key (str "Rome") (str "Ann") (str "u1")) (str "u1") (
      insert (key (str "Oslo") (str "Bob") (str "u2")) (str "u2")
        (insert (key (str "Rome") (str "Cid") (str "u3")) (str "u3") (new_index [] []).entries));
}

two_in_rome : range_scan (some (str "Rome") ∷ []) by_city ≡ str "u1" ∷ str "u3" ∷ []
unfolding range_scan computes index_ord
two_in_rome = refl

range_scan-filter_example :
    range_scan (some (str "Rome") ∷ []) by_city
    ≡ map
        (λ e. e.1)
        (filter (λ e. starts_with (e.0).key_parts (some (str "Rome") ∷ [])) by_city.entries.entries)
range_scan-filter_example = range_scan-filter (some (str "Rome") ∷ []) by_city
