-- ===== src/Sql/Parser/Schemas.antt =====
-- The schemas that src/sql/parser.rs reads off CREATE TABLE.
use conflict_free_oltp_v.Base.{
  none, Bool-cases, inl, inr, Bool, true, false, not, ◌||◌, ◌&&◌, ◌≡◌, refl, ◌∙◌, sym, ap, List, [],
  ◌∷◌, ◌++◌, map, all, leb, length, beq, list_ord, nat_ord, Str, arith,
}
use conflict_free_oltp_v.Crdt.Merge.{TableSchema, ColumnDef, ForeignKeyDef}
use conflict_free_oltp_v.Sql.Syntax.{ColumnOption, ColumnSyntax, TableConstraint, SqlCrate}
use conflict_free_oltp_v.Sql.Parser.{
  ColumnFlags, read_option, read_options, read_column, read_columns, mark_unique, read_constraint,
  read_constraints, schema_of, map_data_type,
}

-- A primary key column is NOT NULL.
abbrev pub key_not_null : ColumnDef → Bool
key_not_null c = not c.primary_key || c.not_null

-- A composite constraint names two columns or more.
abbrev pub is_composite : List Str → Bool
is_composite columns = leb 2 (length columns)

-- What CREATE TABLE makes of its columns.
pub record IsSchema (columns : List ColumnSyntax) (s : TableSchema) : Type 0 where
  pub keys : all key_not_null s.columns ≡ true
  pub names : map (λ c. c.name) s.columns ≡ map (λ c. c.name) columns
  pub types : map (λ c. c.col_type) s.columns ≡ map (λ c. map_data_type c.data_type) columns
  pub composites : all is_composite s.composite_unique_constraints ≡ true

module _ (lib : SqlCrate) where
  abbrev flags_ok : ColumnFlags → Bool
  flags_ok f = not f.primary_key || f.not_null

  read_option-flags_ok :
      (column : Str) (o : ColumnOption) (f : ColumnFlags)
      → flags_ok f ≡ true
      → flags_ok (read_option lib column o f) ≡ true
  unfolding read_option
  read_option-flags_ok column ColumnOption.not_null f h = ground arith
  read_option-flags_ok column (ColumnOption.unique true) f h = ground arith
  read_option-flags_ok column (ColumnOption.unique false) f h = h
  read_option-flags_ok column (ColumnOption.default e) f h = h
  read_option-flags_ok column (ColumnOption.foreign_key foreign_table columns) f h = h
  read_option-flags_ok column ColumnOption.other f h = h

  read_options-flags_ok :
      (column : Str) (options : List ColumnOption) (f : ColumnFlags)
      → flags_ok f ≡ true
      → flags_ok (read_options lib column options f) ≡ true
  unfolding read_options
  read_options-flags_ok column [] f h = h
  read_options-flags_ok column (o ∷ options) f h =
      read_options-flags_ok column options (read_option lib column o f)
        (read_option-flags_ok column o f h)

  read_columns-keys :
      (columns : List ColumnSyntax) (fks : List ForeignKeyDef)
      → all key_not_null (read_columns lib columns fks).0 ≡ true
  unfolding read_columns read_column
  read_columns-keys [] fks = refl
  read_columns-keys (c ∷ columns) fks =
      let (def, after) = read_column lib c fks in
      ground (
        arith,
        read_options-flags_ok c.name c.options
            (record {
              not_null = false;
              primary_key = false;
              unique = false;
              default_value = none;
              foreign_keys = fks;
            })
            refl,
        read_columns-keys columns after,
      )

  read_columns-names :
      (columns : List ColumnSyntax) (fks : List ForeignKeyDef)
      → map (λ c. c.name) (read_columns lib columns fks).0 ≡ map (λ c. c.name) columns
  unfolding read_columns read_column
  read_columns-names [] fks = refl
  read_columns-names (c ∷ columns) fks =
      ap (◌∷◌ c.name) (read_columns-names columns (read_column lib c fks).1)

  read_columns-types :
      (columns : List ColumnSyntax) (fks : List ForeignKeyDef)
      → map (λ c. c.col_type) (read_columns lib columns fks).0
        ≡ map (λ c. map_data_type c.data_type) columns
  unfolding read_columns read_column
  read_columns-types [] fks = refl
  read_columns-types (c ∷ columns) fks =
      ap (◌∷◌ (map_data_type c.data_type)) (read_columns-types columns (read_column lib c fks).1)

-- Marking a column as unique changes nothing else.
mark_unique-kept {ℓ} :
    {B : Type ℓ} (g : ColumnDef → B) (name : Str) (columns : List ColumnDef)
    → ((c : ColumnDef) → g (record c { unique = true }) ≡ g c)
    → map g (mark_unique name columns) ≡ map g columns
unfolding mark_unique
mark_unique-kept g name [] h = refl
mark_unique-kept g name (c ∷ columns) h = elim (Bool-cases (beq c.name name)) [
  | inl same ↦ rw same (ap (λ x. x ∷ map g columns) (h c))
  | inr other ↦ rw other (ap (◌∷◌ (g c)) (mark_unique-kept g name columns h))
]

all-map {ℓ} : {A : Type ℓ} (p : A → Bool) (l : List A) → all p l ≡ all (λ b. b) (map p l)
all-map p [] = refl
all-map p (x ∷ l) = ap (◌&&◌ (p x)) (all-map p l)

all_of_map {ℓ} : {A : Type ℓ} (p : A → Bool) (l m : List A) → map p l ≡ map p m → all p l ≡ all p m
all_of_map p l m h = all-map p l ∙ ap (all (λ b. b)) h ∙ sym (all-map p m)

all-snoc {ℓ} :
    {A : Type ℓ} (p : A → Bool) (l : List A) (x : A)
    → all p l ≡ true
    → p x ≡ true
    → all p (l ++ x ∷ []) ≡ true
all-snoc p [] x h k = ground arith
all-snoc p (y ∷ l) x h k = ground (arith, all-snoc p l x)

read_constraint-IsSchema :
    (columns : List ColumnSyntax) (c : TableConstraint) (s : TableSchema)
    → IsSchema columns s
    → IsSchema columns (read_constraint c s)
unfolding read_constraint
read_constraint-IsSchema columns (TableConstraint.foreign_key fk_cols foreign_table refs) s h =
    record { keys = h.keys; names = h.names; types = h.types; composites = h.composites }
read_constraint-IsSchema columns (TableConstraint.unique []) s h = h
read_constraint-IsSchema columns (TableConstraint.unique (col ∷ [])) s h = record {
  keys =
      all_of_map key_not_null (mark_unique col s.columns) s.columns
        (mark_unique-kept key_not_null col s.columns (λ c. refl))
      ∙ h.keys;
  names = mark_unique-kept (λ c. c.name) col s.columns (λ c. refl) ∙ h.names;
  types = mark_unique-kept (λ c. c.col_type) col s.columns (λ c. refl) ∙ h.types;
  composites = h.composites;
}
read_constraint-IsSchema columns (TableConstraint.unique (col ∷ next ∷ more)) s h = record {
  keys = h.keys;
  names = h.names;
  types = h.types;
  composites =
      all-snoc is_composite s.composite_unique_constraints (col ∷ next ∷ more) h.composites
        (ground arith);
}
read_constraint-IsSchema columns TableConstraint.other s h = h

read_constraints-IsSchema :
    (columns : List ColumnSyntax) (constraints : List TableConstraint) (s : TableSchema)
    → IsSchema columns s
    → IsSchema columns (read_constraints constraints s)
unfolding read_constraints
read_constraints-IsSchema columns [] s h = h
read_constraints-IsSchema columns (c ∷ constraints) s h =
    read_constraints-IsSchema columns constraints (read_constraint c s)
      (read_constraint-IsSchema columns c s h)

-- The schema of a CREATE TABLE has its columns by name and type in order, every primary key column
-- is NOT NULL, and every composite constraint names two columns or more.
pub schema_of-IsSchema :
    (lib : SqlCrate) (name : Str) (columns : List ColumnSyntax) (constraints : List TableConstraint)
    → IsSchema columns (schema_of lib name columns constraints)
unfolding schema_of
schema_of-IsSchema lib name columns constraints =
    let defs : List ColumnDef = (read_columns lib columns []).0 in
    let start : TableSchema = record {
      name = name;
      columns = defs;
      foreign_keys = (read_columns lib columns []).1;
      indexes = [];
      composite_unique_constraints = [];
    } in
    read_constraints-IsSchema columns constraints start (record {
      keys = read_columns-keys lib columns [];
      names = read_columns-names lib columns [];
      types = read_columns-types lib columns [];
      composites = refl;
    })
