-- ===== src/Schema.antt =====
-- The tables that migrations/versions asks the database for, and those that app/models declares.
-- An `Operation` is one call of alembic's `op`, a catalog the tables that there are, the newest
-- first. An operation is refused where PostgreSQL documents that it is: a name that is taken or
-- missing, a column that is missing, a table that another one refers to.
pub mod Initial
pub mod Product
pub mod Declared
pub mod Metadata
pub mod Frame
pub mod Migrated
pub mod Undone
pub mod Secured
pub mod Rows
pub mod Stored
pub mod Orders
pub mod Exact
pub mod Typed
pub mod Samples
pub mod Examples
use mytenancyplus.Prelude.{
  ℕ, String, str_eq, Bool, true, false, not, ◌&&◌, ◌||◌, Option, none, some, List, [], ◌∷◌, ◌++◌,
  if◌then◌else◌,
}
use mytenancyplus.Prelude.Tables.{update_where, delete_where}

-- The types of sqlalchemy that the columns have; an `Enum` with its name and members.
pub data ColumnType : Type 0 where
  uuid : ColumnType
  string : ℕ → ColumnType
  text : ColumnType
  boolean : ColumnType
  integer : ColumnType
  numeric : ℕ → ℕ → ColumnType
  date : ColumnType
  datetime : ColumnType
  json : ColumnType
  enum : String → List String → ColumnType

pub data OnDelete : Type 0 where
  no_action : OnDelete
  cascade : OnDelete
  set_null : OnDelete

-- ForeignKey("table.id", ondelete=...)
pub record ForeignKey : Type 0 where
  pub table : String
  pub target : String
  pub ondelete : OnDelete

pub record Column : Type 0 where
  pub name : String
  pub type : ColumnType
  pub nullable : Bool
  pub primary_key : Bool
  pub foreign_key : Option ForeignKey

-- sa.Column(name, type, primary_key=True), and nullable=False, and without either.
abbrev pub key_column : String → ColumnType → Column
key_column n t = record {
  name = n;
  type = t;
  nullable = false;
  primary_key = true;
  foreign_key = none;
}

abbrev pub required : String → ColumnType → Column
required n t = record {
  name = n;
  type = t;
  nullable = false;
  primary_key = false;
  foreign_key = none;
}

abbrev pub optional : String → ColumnType → Column
optional n t = record {
  name = n;
  type = t;
  nullable = true;
  primary_key = false;
  foreign_key = none;
}

-- sa.Column(name, sa.Uuid(), sa.ForeignKey("table.id", ondelete=...), nullable=...)
abbrev pub referring : String → String → OnDelete → Bool → Column
referring n t o nullable = record {
  name = n;
  type = uuid;
  nullable = nullable;
  primary_key = false;
  foreign_key = some (record { table = t; target = "id"; ondelete = o });
}

-- What op.create_table takes after the name: columns, with or without unique=True, and
-- UniqueConstraint(...).
pub data Element : Type 0 where
  column : Column → Element
  unique_column : Column → Element
  unique_constraint : List String → Element

pub record Index : Type 0 where
  pub name : String
  pub columns : List String
  pub unique : Bool

-- The statements that upgrade executes for each of TENANT_TABLES.
pub data RowSecurity : Type 0 where
  enable_row_level_security : RowSecurity
  force_row_level_security : RowSecurity
  create_policy : RowSecurity

pub data Operation : Type 0 where
  create_table : String → List Element → Operation
  create_index : String → Index → Operation
  execute : String → RowSecurity → Operation
  drop_table : String → Operation

pub record Table : Type 0 where
  pub name : String
  pub columns : List Column
  pub unique_constraints : List (List String)
  pub indexes : List Index
  pub row_security : List RowSecurity

abbrev pub Catalog : Type 0
Catalog = List Table

module _ {A : Type 0} where
  abbrev pub any : (A → Bool) → List A → Bool
  any p [] = false
  any p (x ∷ xs) = p x || any p xs

  abbrev pub every : (A → Bool) → List A → Bool
  every p [] = true
  every p (x ∷ xs) = p x && every p xs

abbrev pub columns_of : List Element → List Column
columns_of [] = []
columns_of (column c ∷ es) = c ∷ columns_of es
columns_of (unique_column c ∷ es) = c ∷ columns_of es
columns_of (unique_constraint ns ∷ es) = columns_of es

abbrev pub constraints_of : List Element → List (List String)
constraints_of [] = []
constraints_of (column c ∷ es) = constraints_of es
constraints_of (unique_column c ∷ es) = (c.name ∷ []) ∷ constraints_of es
constraints_of (unique_constraint ns ∷ es) = ns ∷ constraints_of es

abbrev pub new_table : String → List Element → Table
new_table name elements = record {
  name = name;
  columns = columns_of elements;
  unique_constraints = constraints_of elements;
  indexes = [];
  row_security = [];
}

abbrev pub is_named : String → Table → Bool
is_named name t = str_eq t.name name

abbrev pub taken : String → Catalog → Bool
taken name = any (is_named name)

abbrev pub index_taken : String → Catalog → Bool
index_taken name = any (λ t. any (λ i. str_eq i.name name) t.indexes)

abbrev pub has_column : Table → String → Bool
has_column t name = any (λ c. str_eq c.name name) t.columns

-- There is such a table with such columns.
abbrev pub has_columns : String → List String → Catalog → Bool
has_columns name names = any (λ t. is_named name t && every (has_column t) names)

abbrev pub resolves : Catalog → Option ForeignKey → Bool
resolves c none = true
resolves c (some k) = has_columns k.table (k.target ∷ []) c

abbrev pub refers_to : String → Option ForeignKey → Bool
refers_to name none = false
refers_to name (some k) = str_eq k.table name

abbrev pub referenced : String → Catalog → Bool
referenced name = any (λ t. any (λ c. refers_to name c.foreign_key) t.columns)

abbrev pub add_index : Index → Table → Table
add_index i t = record t { indexes = t.indexes ++ (i ∷ []) }

abbrev pub secure : RowSecurity → Table → Table
secure s t = record t { row_security = t.row_security ++ (s ∷ []) }

abbrev pub when : Bool → Catalog → Option Catalog
when b c = if b then some c else none

-- A new table may refer to itself.
unfoldable pub apply : Operation → Catalog → Option Catalog
apply (create_table name elements) c =
    let t = new_table name elements in
    when
      (not (taken name c)
        && every (λ col. resolves (t ∷ c) col.foreign_key) t.columns
        && every (every (has_column t)) t.unique_constraints)
      (t ∷ c)
apply (create_index name i) c =
    when (has_columns name i.columns c && not (index_taken i.name c))
      (update_where (is_named name) (add_index i) c)
apply (execute name s) c =
    when (has_columns name ("organization_id" ∷ []) c) (update_where (is_named name) (secure s) c)
apply (drop_table name) c =
    let rest = delete_where (is_named name) c in
    when (taken name c && not (referenced name rest)) rest

abbrev pub and_then : Option Catalog → (Catalog → Option Catalog) → Option Catalog
and_then none f = none
and_then (some c) f = f c

-- A migration as one transaction: a statement that is refused undoes all.
unfoldable pub run : List Operation → Catalog → Option Catalog
run [] c = some c
run (op ∷ ops) c = and_then (apply op c) (run ops)

-- for table in ...: op.execute(...) of the three statements
abbrev pub secure_tables : List String → List Operation
secure_tables [] = []
secure_tables (t ∷ ts) =
    execute t enable_row_level_security
    ∷ execute t force_row_level_security
    ∷ execute t create_policy
    ∷ secure_tables ts

-- for table in ...: op.drop_table(table)
abbrev pub drop_tables : List String → List Operation
drop_tables [] = []
drop_tables (t ∷ ts) = drop_table t ∷ drop_tables ts
