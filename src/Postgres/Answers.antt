-- ===== src/Postgres/Answers.antt =====
-- What a query answers, and how it is put for PostgreSQL: `to_postgres_columns` of executor/executor.py,
-- `to_postgres_fields` and `to_postgres_rows` of postgres_proxy.py.
use mindsdb.Common.{
  ℕ, suc, Bool, true, false, ◌||◌, Option, none, some, List, [], ◌∷◌, ◌==◌, if◌then◌else◌, Bytes,
  codes, pos, Result, ok, err, ◌>>=◌, type_error, attribute_error,
}
use mindsdb.Wire.Text.{utf8}
use mindsdb.Postgres.Text.{strip_of, has_parens, text_eq}
use mindsdb.Postgres.Builder.{PostgresField, generic_field}

-- The `type` of a column: a code of the MySQL protocol, a dtype of numpy by what pandas says of it, or
-- another value, such as a name of utilities/lightwood_dtype.py.
pub data FieldType : Type 0 where
  mysql_code numpy_integer numpy_numeric numpy_datetime numpy_other : FieldType
  named : List ℕ → FieldType

-- `Column` of mysql_proxy/classes/sql_query.py, with the attributes that are read here
pub record Column : Type 0 where
  pub name : Option (List ℕ)
  pub alias : Option (List ℕ)
  pub type : FieldType

-- `POSTGRES_TYPES` and its values
pub data PostgresType : Type 0 where
  varchar int long double datetime date : PostgresType

abbrev pub type_value : PostgresType → ℕ
type_value varchar = 0
type_value int = 1
type_value long = 2
type_value double = 3
type_value datetime = 4
type_value date = 5

-- the dictionary of a column, with the entries that are read
pub record PostgresColumn : Type 0 where
  pub name : List ℕ
  pub type : PostgresType

column_type : FieldType → PostgresType
unfolding text_eq
column_type mysql_code = int
column_type numpy_integer = long
column_type numpy_numeric = double
column_type numpy_datetime = datetime
column_type numpy_other = varchar
column_type (named t) =
    if text_eq t (codes "date")
    then date
    else if text_eq t (codes "datetime")
    then datetime
    else if text_eq t (codes "float")
    then double
    else if text_eq t (codes "integer")
    then long
    else varchar

is_paren : ℕ → Bool
is_paren c = c == b'(' || c == b')'

-- `"()" in name` of `None` raises
strip_parens : Option (List ℕ) → Result (List ℕ)
unfolding has_parens is_paren strip_of
strip_parens none = err type_error
strip_parens (some s) = ok (if has_parens s then strip_of is_paren s else s)

-- The names are stored back in the columns without their parentheses, where a second call finds them.
unfoldable pub to_postgres_columns : List Column → Result (List PostgresColumn)
unfolding column_type strip_parens
to_postgres_columns [] = ok []
to_postgres_columns (column ∷ columns) = do
  alias ← strip_parens column.alias
  name ← strip_parens column.name
  rest ← to_postgres_columns columns
  ok (record { name = name; type = column_type column.type } ∷ rest)

-- `enumerate(columns)` from `i`
unfoldable pub fields_from : ℕ → List PostgresColumn → List PostgresField
unfolding generic_field
fields_from i [] = []
fields_from i (column ∷ columns) =
    generic_field column.name (pos (type_value column.type)) (pos 0) (pos i)
    ∷ fields_from (suc i) columns

unfoldable pub to_postgres_fields : List PostgresColumn → List PostgresField
unfolding fields_from
to_postgres_fields columns = fields_from 0 columns

-- A value of a row, by its Python type: a number has its `str`, a list or dictionary its `json.dumps`,
-- and a date or datetime its '%Y-%m-%d' and its '%H:%M:%S'. Other types have no `encode`.
pub data Cell : Type 0 where
  null other : Cell
  text number json : List ℕ → Cell
  moment : List ℕ → List ℕ → Cell
  boolean : Bool → Cell

-- `column.encode(encoding=self.charset)`, with the charset utf8
cell_bytes : Cell → Result Bytes
cell_bytes null = ok []
cell_bytes other = err attribute_error
cell_bytes (text s) = ok (utf8 s)
cell_bytes (number s) = ok (utf8 s)
cell_bytes (json s) = ok (utf8 s)
cell_bytes (moment day time) = ok (utf8 day)
cell_bytes (boolean true) = ok (codes "true")
cell_bytes (boolean false) = ok (codes "false")

row_bytes : List Cell → Result (List Bytes)
unfolding cell_bytes
row_bytes [] = ok []
row_bytes (c ∷ row) = do value ← cell_bytes c; rest ← row_bytes row; ok (value ∷ rest)

unfoldable pub to_postgres_rows : List (List Cell) → Result (List (List Bytes))
unfolding row_bytes
to_postgres_rows [] = ok []
to_postgres_rows (row ∷ rows) = do
  p_row ← row_bytes row
  rest ← to_postgres_rows rows
  ok (p_row ∷ rest)

-- `SQLAnswer`: the three types of answers, with the attributes that are read of each
pub data SqlAnswer : Type 0 where
  success : SqlAnswer
  table : List PostgresColumn → List (List Cell) → SqlAnswer
  failure : Bytes → Bytes → SqlAnswer
