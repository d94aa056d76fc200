-- ===== src/Crdt/MvRegister/Covered.antt =====
-- Which entries of a register of src/crdt/mv_register.rs are covered by another.
use conflict_free_oltp_v.Base.{
  Bool, true, false, not, ◌&&◌, ◌||◌, none, some, List, [], ◌∷◌, ◌≡◌, refl, sym, subst, ◌∙◌, beq,
  blt, list_ord, nat_ord, any, Bool-cases, Bool_ext, Option-cases, inl, inr, ◌⊎◌, if◌then◌else◌,
  arith, unwrap_or, eq_of_beq, blt_trans, blt_irrefl, not_lt_not_eq, any-map,
}
use conflict_free_oltp_v.BTree.{BTreeMap, get}
use conflict_free_oltp_v.BTree.Laws.{get-retain, get-absorb, get_of_any, any_of_get}
use conflict_free_oltp_v.BTree.Every.{Every, Every-of_get}
use conflict_free_oltp_v.Crdt.Clocks.{stamp_ord}
use conflict_free_oltp_v.Crdt.Token.{Token, token_ord}
use conflict_free_oltp_v.Crdt.MvRegister.{MvEntry, dominates, is_covered, compact, union}

-- `x` is a later entry of the same peer.
unfoldable pub supersedes : MvEntry → MvEntry → Bool
supersedes x e = dominates x e && not (beq x.hlc e.hlc)

pub supersedes_lem :
    (x e : MvEntry) → supersedes x e ≡ (beq x.hlc.peer_id e.hlc.peer_id && blt e.hlc x.hlc)
unfolding supersedes
supersedes_lem x e = ground (arith, not_lt_not_eq x.hlc e.hlc)

pub supersedes_trans :
    (x y z : MvEntry) → supersedes x y ≡ true → supersedes y z ≡ true → supersedes x z ≡ true
supersedes_trans x y z h k = ground (
  arith,
  supersedes_lem x y,
  supersedes_lem y z,
  supersedes_lem x z,
  eq_of_beq x.hlc.peer_id y.hlc.peer_id,
  blt_trans z.hlc y.hlc x.hlc,
)

pub supersedes_irrefl : (x : MvEntry) → supersedes x x ≡ false
supersedes_irrefl x = ground (arith, supersedes_lem x x, blt_irrefl x.hlc)

-- An entry is covered exactly when a later one of its peer is found at some key.
pub is_covered_of_get :
    (m : BTreeMap Token MvEntry) (k : Token) (x e : MvEntry)
    → get k m ≡ some x
    → supersedes x e ≡ true
    → is_covered m e ≡ true
unfolding is_covered supersedes
is_covered_of_get m k x e g h =
    any-map (λ y. supersedes y e) (λ z. z.1) m.entries
    ∙ any_of_get (λ z. supersedes z.1 e) k x m g h

pub get_of_covered :
    (m : BTreeMap Token MvEntry) (e : MvEntry)
    → is_covered m e ≡ true
    → (k : Token) × (x : MvEntry) × (get k m ≡ some x) × (supersedes x e ≡ true)
unfolding is_covered supersedes
get_of_covered m e h =
    get_of_any (λ z. supersedes z.1 e) m
      (sym (any-map (λ y. supersedes y e) (λ z. z.1) m.entries) ∙ h)

-- The entry that a search for ever later ones ends at.
latest : Token × MvEntry → List (Token × MvEntry) → Token × MvEntry
latest e [] = e
latest e (x ∷ l) = latest (if supersedes x.1 e.1 then x else e) l

latest_above :
    (e : Token × MvEntry) (l : List (Token × MvEntry)) (z : MvEntry)
    → supersedes e.1 z ≡ true
    → supersedes (latest e l).1 z ≡ true
unfolding latest
latest_above e [] z h = h
latest_above e (x ∷ l) z h = elim (Bool-cases (supersedes x.1 e.1)) [
  | inl t ↦ rw (t, latest) (latest_above x l z (supersedes_trans x.1 e.1 z t h))
  | inr f ↦ rw (f, latest) (latest_above e l z h)
]

latest_or_above :
    (e : Token × MvEntry) (l : List (Token × MvEntry))
    → (latest e l ≡ e) ⊎ (supersedes (latest e l).1 e.1 ≡ true)
unfolding latest
latest_or_above e [] = inl refl
latest_or_above e (x ∷ l) = elim (Bool-cases (supersedes x.1 e.1)) [
  | inl t ↦ inr (rw (t, latest) (latest_above x l e.1 t))
  | inr f ↦ rw (f, latest) (latest_or_above e l)
]

not_above_latest :
    (x e : Token × MvEntry) (l : List (Token × MvEntry))
    → supersedes x.1 e.1 ≡ false
    → supersedes x.1 (latest e l).1 ≡ false
not_above_latest x e l h =
    ground (arith, latest_or_above e l, supersedes_trans x.1 (latest e l).1 e.1)

none_above_latest :
    (e : Token × MvEntry) (l : List (Token × MvEntry))
    → any (λ z. supersedes z.1 (latest e l).1) l ≡ false
unfolding latest
none_above_latest e [] = refl
none_above_latest e (x ∷ l) = elim (Bool-cases (supersedes x.1 e.1)) [
  | inl t ↦
      let same : latest e (x ∷ l) ≡ latest x l = rw (t, latest) in
      subst NoneAbove (sym same)
        (rw (not_above_latest x x l (supersedes_irrefl x.1)) (none_above_latest x l))
  | inr f ↦
      let same : latest e (x ∷ l) ≡ latest e l = rw (f, latest) in
      subst NoneAbove (sym same) (rw (not_above_latest x e l f) (none_above_latest e l))
]
  where
    NoneAbove : Token × MvEntry → Type 0
    NoneAbove t = any (λ z. supersedes z.1 t.1) (x ∷ l) ≡ false

latest_from :
    (P : Token → MvEntry → Type 0) (e : Token × MvEntry) (l : List (Token × MvEntry))
    → P e.0 e.1
    → Every P l
    → P (latest e l).0 (latest e l).1
unfolding latest
latest_from P e [] h a = h
latest_from P e (x ∷ l) h a = elim (Bool-cases (supersedes x.1 e.1)) [
  | inl t ↦ rw (t, latest) (latest_from P x l a.0 a.1)
  | inr f ↦ rw (f, latest) (latest_from P e l h a.1)
]

pub get-compact :
    (k : Token) (m : BTreeMap Token MvEntry)
    → get k (compact m)
      ≡ elim (get k m) [ none ↦ none | some e ↦ if not (is_covered m e) then some e else none ]
unfolding compact
get-compact k m = get-retain (λ j e. not (is_covered m e)) k m

-- What is covered stays covered when the covered entries are gone.
is_covered-compact_of :
    (m : BTreeMap Token MvEntry) (e : MvEntry)
    → is_covered m e ≡ true
    → is_covered (compact m) e ≡ true
unfolding is_covered supersedes
is_covered-compact_of m e h =
    let (k, x, found, above) = get_of_covered m e h in
    let top = latest (k, x) m.entries in
    let at =
      latest_from (λ j y. get j m ≡ some y) (k, x) m.entries found
        (Every-of_get (λ j y. get j m ≡ some y) m (λ j y g. g)) in
    let free : is_covered m top.1 ≡ false =
      any-map (λ y. supersedes y top.1) (λ z. z.1) m.entries ∙ none_above_latest (k, x) m.entries in
    is_covered_of_get (compact m) top.0 top.1 e (rw (get-compact, at, free))
      (latest_above (k, x) m.entries e above)

-- Compaction changes no answer to "is it covered?".
pub is_covered-compact :
    (m : BTreeMap Token MvEntry) (e : MvEntry) → is_covered (compact m) e ≡ is_covered m e
is_covered-compact m e =
    Bool_ext (is_covered (compact m) e) (is_covered m e) back (is_covered-compact_of m e)
  where
    back : is_covered (compact m) e ≡ true → is_covered m e ≡ true
    back h =
        let (k, x, found, above) = get_of_covered (compact m) e h in
        is_covered_of_get m k x e (ground (arith, get-compact k m)) above

-- Two registers give no stamp two values.
abbrev pub Agree : BTreeMap Token MvEntry → BTreeMap Token MvEntry → Type 0
Agree m n = (k : Token) (x y : MvEntry) → get k m ≡ some x → get k n ≡ some y → x ≡ y

pub get-union :
    (k : Token) (m n : BTreeMap Token MvEntry)
    → get k (union m n) ≡ elim (get k m) [ none ↦ get k n | some e ↦ some e ]
unfolding union
get-union k m n = ground (arith, get-absorb (λ j e before. unwrap_or e before) k m n)

-- A union covers what either side covers.
pub is_covered-union :
    (m n : BTreeMap Token MvEntry) (e : MvEntry)
    → Agree m n
    → is_covered (union m n) e ≡ (is_covered m e || is_covered n e)
is_covered-union m n e agree =
    Bool_ext (is_covered (union m n) e) (is_covered m e || is_covered n e) there back
  where
    there : is_covered (union m n) e ≡ true → (is_covered m e || is_covered n e) ≡ true
    there h =
        let (k, x, found, above) = get_of_covered (union m n) e h in
        ground (
          arith,
          get-union k m n,
          λ (g : get k m ≡ some x). is_covered_of_get m k x e g above,
          λ (g : get k n ≡ some x). is_covered_of_get n k x e g above,
        )

    left : is_covered m e ≡ true → is_covered (union m n) e ≡ true
    left h =
        let (k, x, found, above) = get_of_covered m e h in
        is_covered_of_get (union m n) k x e (ground (arith, get-union k m n)) above

    right : is_covered n e ≡ true → is_covered (union m n) e ≡ true
    right h =
        let (k, x, found, above) = get_of_covered n e h in
        let at : get k (union m n) ≡ some x = elim (Option-cases (get k m)) [
          | inl missing ↦ ground (arith, get-union k m n)
          | inr (y, there) ↦ ground (arith, get-union k m n, agree k y x there found)
        ] in
        is_covered_of_get (union m n) k x e at above

    back : (is_covered m e || is_covered n e) ≡ true → is_covered (union m n) e ≡ true
    back h = ground (arith, left, right)
