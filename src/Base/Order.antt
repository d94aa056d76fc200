-- ===== src/Base/Order.antt =====
-- The trait `Ord` with its laws, and the derived orders that the source uses: numbers, byte
-- strings (lexicographic), pairs, options (`None` first) and types with an injective key.
use Prim.Native.Nat.{ℕ, compare, Ordering}
use Prim.Native.Nat.Ordering.{lt, eq, gt}
use mathlib.Core.Path.{◌≡◌, refl, ap}
use mathlib.Core.Bool.{Bool, true, false, not, ◌&&◌}
use mathlib.Core.List.{List, [], ◌∷◌}
use mathlib.Core.Option.{Option, none, some}
use native.Mathlib.Omega.{arith}

-- `Ordering::reverse` and `Ordering::then`.
abbrev pub reverse : Ordering → Ordering
reverse lt = gt
reverse eq = eq
reverse gt = lt

abbrev pub then : Ordering → Ordering → Ordering
then eq second = second
then lt second = lt
then gt second = gt

pub record Ord {ℓ} (A : Type ℓ) : Type ℓ where
  pub cmp : A → A → Ordering
  pub cmp_refl : (a : A) → cmp a a ≡ eq
  pub eq_of_cmp : (a b : A) → cmp a b ≡ eq → a ≡ b
  pub cmp_swap : (a b : A) → cmp b a ≡ reverse (cmp a b)
  pub lt_trans : (a b c : A) → cmp a b ≡ lt → cmp b c ≡ lt → cmp a c ≡ lt

infix 50 ◌≺◌
abbrev pub ◌≺◌ {ℓ} : {A : Type ℓ} ⦃o : Ord A⦄ → A → A → Type 0
◌≺◌ ⦃o⦄ a b = o.cmp a b ≡ lt

-- `==` of a type with an order.
abbrev pub is_eq : Ordering → Bool
is_eq eq = true
is_eq lt = false
is_eq gt = false

abbrev pub is_lt : Ordering → Bool
is_lt lt = true
is_lt eq = false
is_lt gt = false

abbrev pub beq {ℓ} : {A : Type ℓ} ⦃o : Ord A⦄ → A → A → Bool
beq ⦃o⦄ a b = is_eq (o.cmp a b)

abbrev pub blt {ℓ} : {A : Type ℓ} ⦃o : Ord A⦄ → A → A → Bool
blt ⦃o⦄ a b = is_lt (o.cmp a b)

module _ {ℓ} {A : Type ℓ} ⦃o : Ord A⦄ where
  pub beq_refl : (a : A) → beq a a ≡ true
  beq_refl a = ap is_eq (o.cmp_refl a)

  pub eq_of_beq : (a b : A) → beq a b ≡ true → a ≡ b
  eq_of_beq a b h = ground (arith, o.eq_of_cmp a b)

  pub beq_comm : (a b : A) → beq a b ≡ beq b a
  beq_comm a b = ground (arith, o.cmp_swap a b)

  pub blt_trans : (a b c : A) → blt a b ≡ true → blt b c ≡ true → blt a c ≡ true
  blt_trans a b c h k = ground (arith, o.lt_trans a b c)

  -- Above, in the words of `>=` and `!=`.
  pub not_lt_not_eq : (a b : A) → (not (blt a b) && not (beq a b)) ≡ blt b a
  not_lt_not_eq a b = ground (arith, o.cmp_swap a b)

  pub blt_irrefl : (a : A) → blt a a ≡ false
  blt_irrefl a = ap is_lt (o.cmp_refl a)

pub nat-cmp_swap : (a b : ℕ) → compare b a ≡ reverse (compare a b)
nat-cmp_swap a b = ground arith

pub nat-lt_trans : (a b c : ℕ) → compare a b ≡ lt → compare b c ≡ lt → compare a c ≡ lt
nat-lt_trans a b c h k = ground arith

pub nat-eq_of_cmp : (a b : ℕ) → compare a b ≡ eq → a ≡ b
nat-eq_of_cmp a b h = ground arith

pub nat-cmp_refl : (a : ℕ) → compare a a ≡ eq
nat-cmp_refl a = ground arith

instance abbrev pub nat_ord : Ord ℕ
nat_ord = record {
  cmp = compare;
  cmp_refl = nat-cmp_refl;
  eq_of_cmp = nat-eq_of_cmp;
  cmp_swap = nat-cmp_swap;
  lt_trans = nat-lt_trans;
}

module _ {ℓ κ} {A : Type ℓ} {B : Type κ} ⦃a : Ord A⦄ ⦃b : Ord B⦄ where
  abbrev pub pair_cmp : A × B → A × B → Ordering
  pair_cmp x y = then (a.cmp x.0 y.0) (b.cmp x.1 y.1)

  pub pair-cmp_refl : (x : A × B) → pair_cmp x x ≡ eq
  pair-cmp_refl x = ground (arith, a.cmp_refl x.0, b.cmp_refl x.1)

  pub pair-eq_of_cmp : (x y : A × B) → pair_cmp x y ≡ eq → x ≡ y
  pair-eq_of_cmp x y h = ground (arith, a.eq_of_cmp x.0 y.0, b.eq_of_cmp x.1 y.1)

  pub pair-cmp_swap : (x y : A × B) → pair_cmp y x ≡ reverse (pair_cmp x y)
  pair-cmp_swap x y = ground (arith, a.cmp_swap x.0 y.0, b.cmp_swap x.1 y.1)

  pub pair-lt_trans : (x y z : A × B) → pair_cmp x y ≡ lt → pair_cmp y z ≡ lt → pair_cmp x z ≡ lt
  pair-lt_trans x y z h k = ground (
    arith,
    a.eq_of_cmp x.0 y.0,
    a.eq_of_cmp y.0 z.0,
    a.lt_trans x.0 y.0 z.0,
    a.cmp_refl x.0,
    b.lt_trans x.1 y.1 z.1,
  )

  instance abbrev pub pair_ord : Ord (A × B)
  pair_ord = record {
    cmp = pair_cmp;
    cmp_refl = pair-cmp_refl;
    eq_of_cmp = pair-eq_of_cmp;
    cmp_swap = pair-cmp_swap;
    lt_trans = pair-lt_trans;
  }

module _ {ℓ} {A : Type ℓ} ⦃a : Ord A⦄ where
  -- slices: lexicographic, a proper prefix first
  pub list_cmp : List A → List A → Ordering
  list_cmp [] [] = eq
  list_cmp [] (y ∷ ys) = lt
  list_cmp (x ∷ xs) [] = gt
  list_cmp (x ∷ xs) (y ∷ ys) = then (a.cmp x y) (list_cmp xs ys)

  pub list-cmp_refl : (x : List A) → list_cmp x x ≡ eq
  unfolding list_cmp
  list-cmp_refl [] = refl
  list-cmp_refl (x ∷ xs) = ground (arith, a.cmp_refl x, list-cmp_refl xs)

  pub list-eq_of_cmp : (x y : List A) → list_cmp x y ≡ eq → x ≡ y
  unfolding list_cmp
  list-eq_of_cmp [] [] h = refl
  list-eq_of_cmp [] (y ∷ ys) h = cc
  list-eq_of_cmp (x ∷ xs) [] h = cc
  list-eq_of_cmp (x ∷ xs) (y ∷ ys) h = ground (arith, a.eq_of_cmp x y, list-eq_of_cmp xs ys)

  pub list-cmp_swap : (x y : List A) → list_cmp y x ≡ reverse (list_cmp x y)
  unfolding list_cmp
  list-cmp_swap [] [] = refl
  list-cmp_swap [] (y ∷ ys) = refl
  list-cmp_swap (x ∷ xs) [] = refl
  list-cmp_swap (x ∷ xs) (y ∷ ys) = ground (arith, a.cmp_swap x y, list-cmp_swap xs ys)

  pub list-lt_trans : (x y z : List A) → list_cmp x y ≡ lt → list_cmp y z ≡ lt → list_cmp x z ≡ lt
  unfolding list_cmp
  list-lt_trans [] [] z h k = cc
  list-lt_trans [] (y ∷ ys) [] h k = cc
  list-lt_trans [] (y ∷ ys) (z ∷ zs) h k = refl
  list-lt_trans (x ∷ xs) [] z h k = cc
  list-lt_trans (x ∷ xs) (y ∷ ys) [] h k = cc
  list-lt_trans (x ∷ xs) (y ∷ ys) (z ∷ zs) h k = ground (
    arith,
    a.eq_of_cmp x y,
    a.eq_of_cmp y z,
    a.lt_trans x y z,
    a.cmp_refl x,
    list-lt_trans xs ys zs,
  )

  instance unfoldable pub list_ord : Ord (List A)
  unfolding list_cmp
  list_ord = record {
    cmp = list_cmp;
    cmp_refl = list-cmp_refl;
    eq_of_cmp = list-eq_of_cmp;
    cmp_swap = list-cmp_swap;
    lt_trans = list-lt_trans;
  }

  -- `None` is the least option.
  abbrev pub option_cmp : Option A → Option A → Ordering
  option_cmp none none = eq
  option_cmp none (some y) = lt
  option_cmp (some x) none = gt
  option_cmp (some x) (some y) = a.cmp x y

  pub option-cmp_refl : (x : Option A) → option_cmp x x ≡ eq
  option-cmp_refl none = refl
  option-cmp_refl (some x) = a.cmp_refl x

  pub option-eq_of_cmp : (x y : Option A) → option_cmp x y ≡ eq → x ≡ y
  option-eq_of_cmp none none h = refl
  option-eq_of_cmp none (some y) h = cc
  option-eq_of_cmp (some x) none h = cc
  option-eq_of_cmp (some x) (some y) h = ap some (a.eq_of_cmp x y h)

  pub option-cmp_swap : (x y : Option A) → option_cmp y x ≡ reverse (option_cmp x y)
  option-cmp_swap none none = refl
  option-cmp_swap none (some y) = refl
  option-cmp_swap (some x) none = refl
  option-cmp_swap (some x) (some y) = a.cmp_swap x y

  pub option-lt_trans :
      (x y z : Option A) → option_cmp x y ≡ lt → option_cmp y z ≡ lt → option_cmp x z ≡ lt
  option-lt_trans none none z h k = cc
  option-lt_trans none (some y) none h k = cc
  option-lt_trans none (some y) (some z) h k = refl
  option-lt_trans (some x) none z h k = cc
  option-lt_trans (some x) (some y) none h k = cc
  option-lt_trans (some x) (some y) (some z) h k = a.lt_trans x y z h k

  instance abbrev pub option_ord : Ord (Option A)
  option_ord = record {
    cmp = option_cmp;
    cmp_refl = option-cmp_refl;
    eq_of_cmp = option-eq_of_cmp;
    cmp_swap = option-cmp_swap;
    lt_trans = option-lt_trans;
  }

-- The order of a type by a key that determines the value.
abbrev pub ord_by {ℓ κ} :
    {A : Type ℓ} {K : Type κ} ⦃o : Ord K⦄ (key : A → K)
    → ((a b : A) → key a ≡ key b → a ≡ b)
    → Ord A
ord_by ⦃o⦄ key inj = record {
  cmp = λ a b. o.cmp (key a) (key b);
  cmp_refl = λ a. o.cmp_refl (key a);
  eq_of_cmp = λ a b h. inj a b (o.eq_of_cmp (key a) (key b) h);
  cmp_swap = λ a b. o.cmp_swap (key a) (key b);
  lt_trans = λ a b c. o.lt_trans (key a) (key b) (key c);
}
