-- ===== src/BTree/Sets.antt =====
-- Sets: membership after each operation, and the semilattice of unions.
use conflict_free_oltp_v.Base.{false, Option, none, some, ◌≡◌, refl, Ord, beq, ◌||◌, is_some, arith}
use conflict_free_oltp_v.BTree.{BTreeSet, empty, get, contains_key, contains, add, union}
use conflict_free_oltp_v.BTree.Laws.{get-insert, get-absorb, map_ext, get-empty}

option-unit_ext : (a b : Option (Unit {0})) → is_some a ≡ is_some b → a ≡ b
option-unit_ext none none h = refl
option-unit_ext none (some u) h = absurd (cc)
option-unit_ext (some u) none h = absurd (cc)
option-unit_ext (some u) (some v) h = refl

module _ {ℓ} {K : Type ℓ} ⦃o : Ord K⦄ where
  pub set_ext : (s t : BTreeSet K) → ((k : K) → contains k s ≡ contains k t) → s ≡ t
  unfolding contains_key
  set_ext s t h = map_ext s t (λ k. option-unit_ext (get k s) (get k t) (h k))

  pub contains-empty : (k : K) → contains k empty ≡ false
  unfolding contains_key
  contains-empty k = ground (arith, get-empty {V = Unit {0}} k)

  pub contains-add : (j k : K) (s : BTreeSet K) → contains j (add k s) ≡ (beq k j || contains j s)
  unfolding contains_key
  contains-add j k s = ground (arith, get-insert k j tt s)

  pub contains-union :
      (k : K) (s t : BTreeSet K) → contains k (union s t) ≡ (contains k s || contains k t)
  unfolding contains_key
  contains-union k s t = ground (arith, get-absorb (λ j (w : Unit {0}) before. tt) k s t)

  pub union_comm : (s t : BTreeSet K) → union s t ≡ union t s
  union_comm s t =
      set_ext (union s t) (union t s)
        (λ k. ground (arith, contains-union k s t, contains-union k t s))

  pub union_assoc : (s t u : BTreeSet K) → union (union s t) u ≡ union s (union t u)
  union_assoc s t u = set_ext (union (union s t) u) (union s (union t u)) λ k. ground (
    arith,
    contains-union k (union s t) u,
    contains-union k s t,
    contains-union k s (union t u),
    contains-union k t u,
  )

  pub union_idem : (s : BTreeSet K) → union s s ≡ s
  union_idem s = set_ext (union s s) s (λ k. ground (arith, contains-union k s s))

  pub union-empty : (s : BTreeSet K) → union empty s ≡ s
  union-empty s =
      set_ext (union empty s) s (λ k. ground (arith, contains-union k empty s, contains-empty k))
