-- ===== src/BTree/Join.antt =====
-- The contract of the trait `CrdtMerge`: a merge that is commutative, associative and idempotent
-- on the values that satisfy a predicate. Maps of such values, merged key by key, have it too.
use mathlib.Core.Option.{some-injective}
use conflict_free_oltp_v.Base.{
  Option, none, some, ◌≡◌, refl, sym, ap, subst, ◌∙◌, Ord, Option-cases, inl, inr, arith,
}
use conflict_free_oltp_v.BTree.{BTreeMap, get, absorb}
use conflict_free_oltp_v.BTree.Laws.{get-absorb, map_ext}

pub record IsJoin {ℓ κ} {V : Type ℓ} (P : V → Type κ) (join : V → V → V) : Type (ℓ ⊔ κ) where
  pub closed : (x y : V) → P x → P y → P (join x y)
  pub comm : (x y : V) → P x → P y → join x y ≡ join y x
  pub assoc : (x y z : V) → P x → P y → P z → join (join x y) z ≡ join x (join y z)
  pub idem : (x : V) → P x → join x x ≡ x

-- Every value of the map satisfies the predicate of its key.
abbrev pub Each {ℓ κ μ} :
    {K : Type ℓ} {V : Type κ} ⦃o : Ord K⦄ → (K → V → Type μ) → BTreeMap K V → Type (ℓ ⊔ κ ⊔ μ)
Each {K} {V} P m = (k : K) (v : V) → get k m ≡ some v → P k v

module _ {ℓ κ μ} {K : Type ℓ} {V : Type κ} ⦃o : Ord K⦄ (P : K → V → Type μ) (join : V → V → V)
    (f : K → V → Option V → V) (laws : (k : K) → IsJoin (P k) join)
    (fresh : (k : K) (w : V) → P k w → f k w none ≡ w)
    (meets : (k : K) (w v : V) → f k w (some v) ≡ join v w) where
  abbrev both : Option V → Option V → Option V
  both none b = b
  both (some a) none = some a
  both (some a) (some b) = some (join a b)

  get-absorb-both :
      (k : K) (m n : BTreeMap K V) → Each P n → get k (absorb f m n) ≡ both (get k m) (get k n)
  get-absorb-both k m n h = elim (Option-cases (get k n)) [
    | inl missing ↦ elim (Option-cases (get k m)) [
      | inl none_there ↦ ground (arith, get-absorb f k m n)
      | inr (v, there) ↦ ground (arith, get-absorb f k m n)
    ]
    | inr (w, found) ↦ elim (Option-cases (get k m)) [
      | inl none_there ↦ ground (arith, get-absorb f k m n, fresh k w (h k w found))
      | inr (v, there) ↦ ground (arith, get-absorb f k m n, meets k w v)
    ]
  ]

  closed_at :
      (k : K) (a b : Option V) (x : V)
      → ((v : V) → a ≡ some v → P k v)
      → ((v : V) → b ≡ some v → P k v)
      → both a b ≡ some x
      → P k x
  closed_at k none b x p q h = q x h
  closed_at k (some a) none x p q h = p x h
  closed_at k (some a) (some b) x p q h =
      subst (P k) (some-injective (join a b) x h) ((laws k).closed a b (p a refl) (q b refl))

  absorb-Each : (m n : BTreeMap K V) → Each P m → Each P n → Each P (absorb f m n)
  absorb-Each m n p q k x h =
      closed_at k (get k m) (get k n) x (p k) (q k) (sym (get-absorb-both k m n q) ∙ h)

  both_comm :
      (k : K) (a b : Option V)
      → ((v : V) → a ≡ some v → P k v)
      → ((v : V) → b ≡ some v → P k v)
      → both a b ≡ both b a
  both_comm k none none p q = refl
  both_comm k none (some b) p q = refl
  both_comm k (some a) none p q = refl
  both_comm k (some a) (some b) p q = ap some ((laws k).comm a b (p a refl) (q b refl))

  both_assoc :
      (k : K) (a b c : Option V)
      → ((v : V) → a ≡ some v → P k v)
      → ((v : V) → b ≡ some v → P k v)
      → ((v : V) → c ≡ some v → P k v)
      → both (both a b) c ≡ both a (both b c)
  both_assoc k none b c p q r = refl
  both_assoc k (some a) none c p q r = refl
  both_assoc k (some a) (some b) none p q r = refl
  both_assoc k (some a) (some b) (some c) p q r =
      ap some ((laws k).assoc a b c (p a refl) (q b refl) (r c refl))

  both_idem : (k : K) (a : Option V) → ((v : V) → a ≡ some v → P k v) → both a a ≡ a
  both_idem k none p = refl
  both_idem k (some a) p = ap some ((laws k).idem a (p a refl))

  -- Key by key, the maps have the contract as well.
  pub absorb-IsJoin : IsJoin (Each P) (absorb f)
  absorb-IsJoin = record {
    closed = absorb-Each;
    comm = λ m n p q. map_ext (absorb f m n) (absorb f n m) λ k.
        get-absorb-both k m n q
        ∙ both_comm k (get k m) (get k n) (p k) (q k)
        ∙ sym (get-absorb-both k n m p);
    assoc = λ m n l p q r. map_ext (absorb f (absorb f m n) l) (absorb f m (absorb f n l)) λ k.
        get-absorb-both k (absorb f m n) l r
        ∙ ap (λ a. both a (get k l)) (get-absorb-both k m n q)
        ∙ both_assoc k (get k m) (get k n) (get k l) (p k) (q k) (r k)
        ∙ sym (ap (both (get k m)) (get-absorb-both k n l r))
        ∙ sym (get-absorb-both k m (absorb f n l) (absorb-Each n l q r));
    idem =
        λ m p. map_ext (absorb f m m) m λ k. get-absorb-both k m m p ∙ both_idem k (get k m) (p k);
  }
