-- ===== src/Postgres/Backend/Fields.antt =====
-- `RowDescriptions` of postgres_message_formats.py: the bytes of the description of the columns.
use mindsdb.Common.{
  ℕ, suc, ◌+◌, ◌≤◌, ◌<◌, ◌≡◌, refl, ap, sym, List, [], ◌∷◌, ◌++◌, arith, length, Bytes, codes, pos,
  ok, append_assoc, append-nil, All,
}
use mindsdb.Wire.Text.{utf8}
use mindsdb.Postgres.Numbers.{Is16, Is32}
use mindsdb.Postgres.Builder.{Builder, PostgresField, generic_field, add_field, add_fields}
use mindsdb.Postgres.Builder.Contents.{
  Builds, Builds-eq, reset-Builds, add_int16-Builds, add_int32-Builds, add_string-Builds,
  write-Builds,
}
use mindsdb.Postgres.Answers.{
  PostgresColumn, PostgresType, type_value, fields_from, to_postgres_fields, varchar, int, long,
  double, datetime, date,
}
use mindsdb.Postgres.Reader.Steps.{int16, int32, string, each}
use mindsdb.Postgres.Backend.{row_descriptions, row_descriptions_packet, write_file, send}
use mindsdb.Postgres.Backend.Frames.{frame, InRange}

-- the parts of a field, in the order of the protocol
abbrev pub field_bytes : PostgresField → Bytes
field_bytes f =
    string (utf8 f.name)
    ++ (int32 f.table_id
        ++ (int16 f.column_id
            ++ (int32 f.object_id
                ++ (int16 f.dt_size ++ (int32 f.type_modifier ++ int16 f.format_code)))))

abbrev pub description_body : List PostgresField → Bytes
description_body fields = int16 (pos (length fields)) ++ each field_bytes fields

pub record FitsField (f : PostgresField) : Type 0 where
  table : Is32 f.table_id
  column : Is16 f.column_id
  object : Is32 f.object_id
  size : Is16 f.dt_size
  modifier : Is32 f.type_modifier
  format : Is16 f.format_code

add_field-Builds :
    {id body : Bytes} {b : Builder} (f : PostgresField)
    → FitsField f
    → Builds id b body
    → Builds id (add_field f b) (body ++ field_bytes f)
unfolding add_field
add_field-Builds {body = body} f h z =
    let named = add_int32-Builds f.table_id h.table (add_string-Builds (utf8 f.name) z) in
    let typed =
      add_int16-Builds f.dt_size h.size
        (add_int32-Builds f.object_id h.object (add_int16-Builds f.column_id h.column named)) in
    Builds-eq (body ++ field_bytes f) (simp append_assoc)
      (add_int16-Builds f.format_code h.format (add_int32-Builds f.type_modifier h.modifier typed))

add_fields-Builds :
    (fields : List PostgresField) {id body : Bytes} {b : Builder}
    → All FitsField fields
    → Builds id b body
    → Builds id (add_fields fields b) (body ++ each field_bytes fields)
unfolding add_fields
add_fields-Builds [] {body = body} h z = Builds-eq _ (sym (append-nil body)) z
add_fields-Builds (f ∷ fields) {body = body} (hf, hs) z =
    Builds-eq _ (append_assoc body (field_bytes f) (each field_bytes fields))
      (add_fields-Builds fields hs (add_field-Builds f hf z))

pub send-row_descriptions :
    (fields : List PostgresField) (wfile : Bytes)
    → length fields < 32768
    → All FitsField fields
    → InRange (description_body fields)
    → send (row_descriptions fields) wfile ≡ (wfile ++ frame b'T' (description_body fields), ok tt)
unfolding send row_descriptions_packet
send-row_descriptions fields wfile few h fits = ap (write_file wfile) (
    write-Builds
      (add_fields-Builds fields h
        (add_int16-Builds (pos (length fields)) few (reset-Builds (codes "T"))))
      fits)

type_value-lt : (t : PostgresType) → type_value t < 6
type_value-lt varchar = omega arith
type_value-lt int = omega arith
type_value-lt long = omega arith
type_value-lt double = omega arith
type_value-lt datetime = omega arith
type_value-lt date = omega arith

fields_from-fits :
    (i : ℕ) (columns : List PostgresColumn)
    → i + length columns ≤ 32768
    → All FitsField (fields_from i columns)
unfolding fields_from generic_field
fields_from-fits i [] h = tt
fields_from-fits i (column ∷ columns) h =
    let small = type_value-lt column.type in
    (
      record {
        table = omega arith;
        column = omega arith;
        object = omega arith;
        size = omega arith;
        modifier = omega arith;
        format = omega arith;
      },
      fields_from-fits (suc i) columns (omega arith),
    )

length-fields_from :
    (i : ℕ) (columns : List PostgresColumn) → length (fields_from i columns) ≡ length columns
unfolding fields_from
length-fields_from i [] = refl
length-fields_from i (column ∷ columns) = ap suc (length-fields_from (suc i) columns)

-- The columns of an answer are described whatever they are, if there are not too many.
pub send-to_postgres_fields :
    (columns : List PostgresColumn) (wfile : Bytes)
    → length columns < 32768
    → InRange (description_body (to_postgres_fields columns))
    → send (row_descriptions (to_postgres_fields columns)) wfile
      ≡ (wfile ++ frame b'T' (description_body (to_postgres_fields columns)), ok tt)
unfolding to_postgres_fields
send-to_postgres_fields columns wfile few fits =
    send-row_descriptions (fields_from 0 columns) wfile
      (omega (arith, length-fields_from 0 columns)) (fields_from-fits 0 columns (omega arith)) fits
