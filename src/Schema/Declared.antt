-- ===== src/Schema/Declared.antt =====
-- How SQLAlchemy reads a class of app/models: the columns of a class before those of its mixins, a
-- unique constraint for unique=True, an index for index=True, and one unique index for both.
use mytenancyplus.Prelude.{String, true, false, Bool, List, [], ◌∷◌, ◌++◌}
use Prim.Native.String
use mytenancyplus.Schema.{
  uuid, datetime, cascade, key_column, required, referring, Column, Index, Table,
}

-- mapped_column(...)
pub data MappedColumn : Type 0 where
  plain : Column → MappedColumn
  indexed : Column → MappedColumn
  unique : Column → MappedColumn
  unique_indexed : Column → MappedColumn

abbrev pub column_of : MappedColumn → Column
column_of (plain c) = c
column_of (indexed c) = c
column_of (unique c) = c
column_of (unique_indexed c) = c

abbrev pub mapped_columns : List MappedColumn → List Column
mapped_columns [] = []
mapped_columns (c ∷ cs) = column_of c ∷ mapped_columns cs

abbrev pub mapped_constraints : List MappedColumn → List (List String)
mapped_constraints [] = []
mapped_constraints (plain c ∷ cs) = mapped_constraints cs
mapped_constraints (indexed c ∷ cs) = mapped_constraints cs
mapped_constraints (unique c ∷ cs) = (c.name ∷ []) ∷ mapped_constraints cs
mapped_constraints (unique_indexed c ∷ cs) = mapped_constraints cs

-- The index of a column, by the name that SQLAlchemy gives it.
abbrev pub column_index : String → Bool → Column → Index
column_index tablename u c = record {
  name = String.◌++◌ "ix_" (String.◌++◌ tablename (String.◌++◌ "_" c.name));
  columns = c.name ∷ [];
  unique = u;
}

abbrev pub mapped_indexes : String → List MappedColumn → List Index
mapped_indexes tablename [] = []
mapped_indexes tablename (plain c ∷ cs) = mapped_indexes tablename cs
mapped_indexes tablename (indexed c ∷ cs) =
    column_index tablename false c ∷ mapped_indexes tablename cs
mapped_indexes tablename (unique c ∷ cs) = mapped_indexes tablename cs
mapped_indexes tablename (unique_indexed c ∷ cs) =
    column_index tablename true c ∷ mapped_indexes tablename cs

-- A class: __tablename__, its columns, its mixins and __table_args__.
abbrev pub declared : String → List MappedColumn → List MappedColumn → List (List String) → Table
declared tablename own mixins args =
    let cs = own ++ mixins in
    record {
      name = tablename;
      columns = mapped_columns cs;
      unique_constraints = mapped_constraints cs ++ args;
      indexes = mapped_indexes tablename cs;
      row_security = [];
    }

abbrev pub uuid_primary_key_mixin : List MappedColumn
uuid_primary_key_mixin = plain (key_column "id" uuid) ∷ []

abbrev pub timestamp_mixin : List MappedColumn
timestamp_mixin =
    plain (required "created_at" datetime) ∷ plain (required "updated_at" datetime) ∷ []

abbrev pub tenant_owned_mixin : List MappedColumn
tenant_owned_mixin = indexed (referring "organization_id" "organizations" cascade false) ∷ []
