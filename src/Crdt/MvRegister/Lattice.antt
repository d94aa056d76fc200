-- ===== src/Crdt/MvRegister/Lattice.antt =====
-- `merge` of src/crdt/mv_register.rs as a join.
use conflict_free_oltp_v.Base.{
  Bool_ext, false, ◌||◌, some, ◌≡◌, sym, ◌∙◌, Option-cases, inl, inr, ◌⊎◌, ◌↔◌, arith,
}
use conflict_free_oltp_v.BTree.{BTreeMap, get}
use conflict_free_oltp_v.BTree.Join.{IsJoin}
use conflict_free_oltp_v.BTree.Laws.{map_ext, eq_of_some_iff, get-empty}
use conflict_free_oltp_v.Crdt.Token.{Token, token_ord}
use conflict_free_oltp_v.Crdt.MvRegister.{MvEntry, MvRegister, new, is_covered, union, merge}
use conflict_free_oltp_v.Crdt.MvRegister.Covered.{
  Agree, get-compact, get-union, is_covered-compact, is_covered-union, get_of_covered,
}

-- No entry of the register is covered by another.
abbrev pub IsCompact : MvRegister → Type 0
IsCompact r = (k : Token) (e : MvEntry) → get k r.entries ≡ some e → is_covered r.entries e ≡ false

-- What stands at a stamp after a merge: what either side has there and neither side covers.
abbrev pub Joined : MvRegister → MvRegister → Token → MvEntry → Type 0
Joined a b k e =
    ((get k a.entries ≡ some e) ⊎ (get k b.entries ≡ some e))
    × (is_covered a.entries e ≡ false)
    × (is_covered b.entries e ≡ false)

module _ (a b : MvRegister) (agree : Agree a.entries b.entries) where
  pub get-merge_iff :
      (k : Token) (e : MvEntry) → (get k (merge a b).entries ≡ some e) ↔ Joined a b k e
  unfolding merge
  get-merge_iff k e = (there, back)
    where
      there : get k (merge a b).entries ≡ some e → Joined a b k e
      there h = ground (
        arith,
        get-compact k (union a.entries b.entries),
        get-union k a.entries b.entries,
        is_covered-union a.entries b.entries e agree,
      )

      at :
          (get k a.entries ≡ some e) ⊎ (get k b.entries ≡ some e)
          → get k (union a.entries b.entries) ≡ some e
      at (inl g) = ground (arith, get-union k a.entries b.entries)
      at (inr g) = elim (Option-cases (get k a.entries)) [
        | inl missing ↦ ground (arith, get-union k a.entries b.entries)
        | inr (y, here) ↦ ground (arith, get-union k a.entries b.entries, agree k y e here g)
      ]

      back : Joined a b k e → get k (merge a b).entries ≡ some e
      back h = ground (
        arith,
        at h.0,
        get-compact k (union a.entries b.entries),
        is_covered-union a.entries b.entries e agree,
      )

  is_covered-merge :
      (e : MvEntry)
      → is_covered (merge a b).entries e ≡ (is_covered a.entries e || is_covered b.entries e)
  unfolding merge
  is_covered-merge e =
      is_covered-compact (union a.entries b.entries) e
      ∙ is_covered-union a.entries b.entries e agree

  merge-IsCompact_of : IsCompact (merge a b)
  merge-IsCompact_of k e h = ground (arith, is_covered-merge e, (get-merge_iff k e).0 h)

Agree-sym : (m n : BTreeMap Token MvEntry) → Agree m n → Agree n m
Agree-sym m n h k x y p q = sym (h k y x q p)

-- A merge agrees with what both its sides agree with.
pub Agree-merge :
    (a b c : MvRegister)
    → Agree a.entries b.entries
    → Agree a.entries c.entries
    → Agree b.entries c.entries
    → Agree (merge a b).entries c.entries
Agree-merge a b c ab ac bc k x y p q = ground (
  arith,
  (get-merge_iff a b ab k x).0 p,
  λ (g : get k a.entries ≡ some x). ac k x y g q,
  λ (g : get k b.entries ≡ some x). bc k x y g q,
)

pub register_ext :
    (a b : MvRegister)
    → ((k : Token) (e : MvEntry) → get k a.entries ≡ some e → get k b.entries ≡ some e)
    → ((k : Token) (e : MvEntry) → get k b.entries ≡ some e → get k a.entries ≡ some e)
    → a ≡ b
register_ext a b f g =
    let p : a.entries ≡ b.entries =
      map_ext a.entries b.entries
        (λ k. eq_of_some_iff (get k a.entries) (get k b.entries) (f k) (g k)) in
    λ i. record { entries = p i }

-- Merging two registers in either order gives the same register, if no stamp stands for two values.
pub merge_comm : (a b : MvRegister) → Agree a.entries b.entries → merge a b ≡ merge b a
merge_comm a b agree = register_ext (merge a b) (merge b a) (half a b agree) (half b a swapped)
  where
    swapped : Agree b.entries a.entries
    swapped = Agree-sym a.entries b.entries agree

    half :
        (c d : MvRegister)
        → Agree c.entries d.entries
        → (k : Token) (e : MvEntry) → get k (merge c d).entries ≡ some e
        → get k (merge d c).entries ≡ some e
    half c d h k e p =
        let (at, free, free') = (get-merge_iff c d h k e).0 p in
        (get-merge_iff d c (Agree-sym c.entries d.entries h) k e).1 (ground arith, free', free)

-- A register without dominated entries merged with itself is itself.
pub merge_idem : (a : MvRegister) → IsCompact a → merge a a ≡ a
merge_idem a h =
    register_ext (merge a a) a (λ k e p. ground (arith, (get-merge_iff a a same k e).0 p))
      (λ k e p. (get-merge_iff a a same k e).1 (inl p, h k e p, h k e p))
  where
    same : Agree a.entries a.entries
    same k x y p q = ground arith

-- The grouping of three register merges does not matter, if no stamp stands for two values.
pub merge_assoc :
    (a b c : MvRegister)
    → Agree a.entries b.entries
    → Agree a.entries c.entries
    → Agree b.entries c.entries
    → merge (merge a b) c ≡ merge a (merge b c)
merge_assoc a b c ab ac bc =
    register_ext (merge (merge a b) c) (merge a (merge b c))
      (λ k e p. ground (
        arith,
        (outer k e).0 p,
        (get-merge_iff a b ab k e).0,
        (get-merge_iff b c bc k e).1,
        (outer' k e).1,
        is_covered-merge a b ab e,
        is_covered-merge b c bc e,
      ))
      (λ k e p. ground (
        arith,
        (outer' k e).0 p,
        (get-merge_iff b c bc k e).0,
        (get-merge_iff a b ab k e).1,
        (outer k e).1,
        is_covered-merge a b ab e,
        is_covered-merge b c bc e,
      ))
  where
    outer :
        (k : Token) (e : MvEntry)
        → (get k (merge (merge a b) c).entries ≡ some e) ↔ Joined (merge a b) c k e
    outer = get-merge_iff (merge a b) c (Agree-merge a b c ab ac bc)

    outer' :
        (k : Token) (e : MvEntry)
        → (get k (merge a (merge b c)).entries ≡ some e) ↔ Joined a (merge b c) k e
    outer' = get-merge_iff a (merge b c) (
        Agree-sym (merge b c).entries a.entries (
          Agree-merge b c a bc (Agree-sym a.entries b.entries ab)
            (Agree-sym a.entries c.entries ac)))

-- A merge of registers in which no stamp stands for two values leaves no dominated entry.
pub merge-IsCompact : (a b : MvRegister) → Agree a.entries b.entries → IsCompact (merge a b)
merge-IsCompact a b agree = merge-IsCompact_of a b agree

-- The registers that hold, at each stamp, the value that the stamp stands for, and no covered one.
pub record IsRegister (h : Token → MvEntry) (r : MvRegister) : Type 0 where
  pub stands : (k : Token) (e : MvEntry) → get k r.entries ≡ some e → e ≡ h k
  pub tight : IsCompact r

module _ (h : Token → MvEntry) where
  Agree-of : (a b : MvRegister) → IsRegister h a → IsRegister h b → Agree a.entries b.entries
  Agree-of a b p q k x y u v = p.stands k x u ∙ sym (q.stands k y v)

  merge-IsRegister : (a b : MvRegister) → IsRegister h a → IsRegister h b → IsRegister h (merge a b)
  merge-IsRegister a b p q = record {
    stands = λ k e u.
        ground (arith, (get-merge_iff a b (Agree-of a b p q) k e).0 u, p.stands k e, q.stands k e);
    tight = merge-IsCompact a b (Agree-of a b p q);
  }

  -- Under one meaning of the stamps the registers form a join semilattice.
  pub IsRegister-IsJoin : IsJoin (IsRegister h) merge
  IsRegister-IsJoin = record {
    closed = merge-IsRegister;
    comm = λ a b p q. merge_comm a b (Agree-of a b p q);
    assoc =
        λ a b c p q r. merge_assoc a b c (Agree-of a b p q) (Agree-of a c p r) (Agree-of b c q r);
    idem = λ a p. merge_idem a p.tight;
  }

-- The empty register is a unit.
pub new-merge : (a : MvRegister) → IsCompact a → merge new a ≡ a
unfolding new
new-merge a tight =
    register_ext (merge new a) a
      (λ k e p. ground (arith, (get-merge_iff new a nothing k e).0 p, get-empty {V = MvEntry} k))
      (λ k e p. (get-merge_iff new a nothing k e).1 (inr p, uncovered e, tight k e p))
  where
    nothing : Agree new.entries a.entries
    nothing k x y p q = absurd (ground (arith, get-empty {V = MvEntry} k))

    uncovered : (e : MvEntry) → is_covered new.entries e ≡ false
    uncovered e =
        Bool_ext (is_covered new.entries e) false
          (λ h.
            let (k, x, found, above) = get_of_covered new.entries e h in
            ground (arith, get-empty {V = MvEntry} k))
          (λ h. absurd (cc))
