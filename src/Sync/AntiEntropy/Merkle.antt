-- ===== src/Sync/AntiEntropy/Merkle.antt =====
-- The Merkle digest of src/sync/anti_entropy.rs. BLAKE3, fed piece by piece, is a function of the
-- bytes that it was fed, and bincode a function of the operation: parameters.
use conflict_free_oltp_v.Base.{
  ℕ, ◌+◌, ◌-◌, ◌*◌, ◌/◌, ◌%◌, ◌≤◌, ◌<◌, Bool, false, not, ◌&&◌, ◌||◌, Option, none, some, List, [],
  ◌∷◌, ◌++◌, any, filter, ◌≡◌, refl, sym, ap, ◌∙◌, ◌↔◌, any-append, arith, leb, ltb, ◌==◌, beq,
  eq_of_beq, beq_refl, if◌then◌else◌, unwrap_or, Bytes, list_ord, nat_ord, option_ord, u64_range,
  Bool-cases, inl, inr, subst,
}
use native.Mathlib.Nat.{add-mul, one-mul, le-div_iff_mul-le, div-lt_iff_lt-mul}
use conflict_free_oltp_v.BTree.{
  BTreeMap, BTreeSet, empty, get, update_entry, map_values, keys, contains, contains_key, add,
}
use conflict_free_oltp_v.BTree.Sets.{contains-add, contains-empty}
use conflict_free_oltp_v.BTree.Laws.{map_ext, any-keys}
use conflict_free_oltp_v.Crdt.Merge.{CrdtOp}
use conflict_free_oltp_v.Storage.OpLog.{LogEntry, OpLog, len}

pub record MerkleDigest : Type 0 where
  pub bucket_size : ℕ
  pub buckets : BTreeMap ℕ Bytes
  pub total_ops : ℕ

module _ (serialize : CrdtOp → Bytes) (hash : Bytes → Bytes) where
  -- What the hasher of each bucket has been fed.
  unfoldable pub feed_buckets : ℕ → List LogEntry → BTreeMap ℕ Bytes → BTreeMap ℕ Bytes
  feed_buckets bucket_size [] m = m
  feed_buckets bucket_size (e ∷ l) m =
      feed_buckets bucket_size l
        (update_entry (e.seq / bucket_size) (λ fed. unwrap_or [] fed ++ serialize e.op) m)

  abbrev digest_of : ℕ → OpLog → MerkleDigest
  digest_of bucket_size log = record {
    bucket_size = bucket_size;
    buckets = map_values (λ bucket fed. hash fed) (feed_buckets bucket_size log.entries empty);
    total_ops = len log;
  }

  -- The division panics, `none`, if the size is zero and there is an entry.
  unfoldable pub build : OpLog → ℕ → Option MerkleDigest
  unfolding feed_buckets
  build log bucket_size =
      if (bucket_size == 0) && ltb 0 (len log) then none else some (digest_of bucket_size log)

-- `keys().chain(keys()).collect()`
unfoldable pub collect_keys : List ℕ → BTreeSet ℕ
collect_keys [] = empty
collect_keys (b ∷ l) = add b (collect_keys l)

abbrev pub differs_at : MerkleDigest → MerkleDigest → ℕ → Bool
differs_at a b bucket = not (beq (get bucket a.buckets) (get bucket b.buckets))

unfoldable pub diff_buckets : MerkleDigest → MerkleDigest → List ℕ
unfolding collect_keys
diff_buckets a b = filter (differs_at a b) (keys (collect_keys (keys a.buckets ++ keys b.buckets)))

unfoldable pub bucket_range : ℕ → MerkleDigest → ℕ × ℕ
bucket_range bucket d =
    let start = (bucket * d.bucket_size) % u64_range in
    (start, (start + d.bucket_size + (u64_range - 1)) % u64_range)

wrapped_range :
    (s n : ℕ)
    → 0 < n
    → s + n ≤ u64_range
    → (s % u64_range ≡ s) × ((s + n + (u64_range - 1)) % u64_range ≡ s + n - 1)
wrapped_range s n h k = (omega (arith, h, k), omega (arith, h, k))

-- The range of a bucket holds exactly the sequence numbers whose quotient by the size is the
-- bucket, if the size is not zero and the range ends within u64.
pub bucket_range-holds :
    (bucket seq : ℕ) (d : MerkleDigest)
    → 0 < d.bucket_size
    → bucket * d.bucket_size + d.bucket_size ≤ u64_range
    → (leb (bucket_range bucket d).0 seq && leb seq (bucket_range bucket d).1)
      ≡ ((seq / d.bucket_size) == bucket)
unfolding bucket_range
bucket_range-holds bucket seq d h k =
    let n = d.bucket_size in
    let s = bucket * n in
    let (start, end) = wrapped_range s n h k in
    let first : s % u64_range ≡ s = start in
    let last_one : (s % u64_range + n + (u64_range - 1)) % u64_range ≡ s + n - 1 =
      ap (λ x. (x + n + (u64_range - 1)) % u64_range) start ∙ end in
    let next : (bucket + 1) * n ≡ s + n = suc_mul bucket n in
    let (up, down) = le-div_iff_mul-le {k = n} {x = bucket} {y = seq} h in
    let (below, above) = div-lt_iff_lt-mul {k = n} {x = seq} {y = bucket + 1} h in
    in_bucket s n (seq / n) bucket seq (s % u64_range)
      ((s % u64_range + n + (u64_range - 1)) % u64_range) h first last_one (λ x. up x) (λ x. down x)
      (λ x. subst (λ m. seq < m) next (below x)) (λ x. above (subst (λ m. seq < m) (sym next) x))
  where
    suc_mul : (b n : ℕ) → (b + 1) * n ≡ b * n + n
    suc_mul b n = add-mul b 1 n ∙ ap (λ x. b * n + x) (one-mul n)

    in_bucket :
        (s n q bucket seq start end : ℕ)
        → 0 < n
        → start ≡ s
        → end ≡ s + n - 1
        → (bucket ≤ q → s ≤ seq)
        → (s ≤ seq → bucket ≤ q)
        → (q < bucket + 1 → seq < s + n)
        → (seq < s + n → q < bucket + 1)
        → (leb start seq && leb seq end) ≡ (q == bucket)
    in_bucket s n q bucket seq start end h a b up down below above = ground arith

contains-collect_keys : (b : ℕ) (l : List ℕ) → contains b (collect_keys l) ≡ any (λ c. beq c b) l
unfolding collect_keys
contains-collect_keys b [] = contains-empty b
contains-collect_keys b (c ∷ l) =
    contains-add b c (collect_keys l) ∙ ap (◌||◌ (beq c b)) (contains-collect_keys b l)

any_at-filter :
    (b : ℕ) (p : ℕ → Bool) (l : List ℕ)
    → any (λ c. beq c b) (filter p l) ≡ (p b && any (λ c. beq c b) l)
any_at-filter b p [] = ground arith
any_at-filter b p (c ∷ l) = elim (Bool-cases (beq c b)) [
  | inl same ↦ ground (arith, any_at-filter b p l, ap p (eq_of_beq c b same))
  | inr other ↦ ground (arith, any_at-filter b p l)
]

-- The buckets that a comparison of two digests lists are exactly those whose hashes differ, or that
-- one side only has.
pub diff_buckets_complete :
    (a b : MerkleDigest) (bucket : ℕ)
    → any (λ c. beq c bucket) (diff_buckets a b) ≡ differs_at a b bucket
unfolding diff_buckets contains_key
diff_buckets_complete a b bucket = ground (
  arith,
  any_at-filter bucket (differs_at a b) (keys (collect_keys (keys a.buckets ++ keys b.buckets))),
  any-keys bucket (collect_keys (keys a.buckets ++ keys b.buckets)),
  contains-collect_keys bucket (keys a.buckets ++ keys b.buckets),
  any-append (λ c. beq c bucket) (keys a.buckets) (keys b.buckets),
  any-keys bucket a.buckets,
  any-keys bucket b.buckets,
)

-- A comparison lists nothing exactly if the two digests have the same buckets with the same hashes.
pub diff_buckets_iff : (a b : MerkleDigest) → (diff_buckets a b ≡ []) ↔ (a.buckets ≡ b.buckets)
diff_buckets_iff a b = (
  λ h. map_ext a.buckets b.buckets (λ k.
      let none_here : differs_at a b k ≡ false =
        sym (diff_buckets_complete a b k) ∙ ap (any (λ c. beq c k)) h in
      eq_of_beq (get k a.buckets) (get k b.buckets) (ground arith)),
  λ e. empty_of (diff_buckets a b) (λ k.
      diff_buckets_complete a b k
      ∙ ap (λ m. not (beq (get k a.buckets) (get k m))) (sym e)
      ∙ ap not (beq_refl (get k a.buckets))),
)
  where
    empty_of : (l : List ℕ) → ((k : ℕ) → any (λ c. beq c k) l ≡ false) → l ≡ []
    empty_of [] h = refl
    empty_of (c ∷ l) h = absurd (ground (arith, h c, beq_refl c))
