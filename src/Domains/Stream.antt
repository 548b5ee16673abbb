-- ===== src/Domains/Stream.antt =====
-- domains/stream.py: what the stream client sends and gets. An absent argument is `none`. The
-- iterator that `subscribe` makes, and the registration of the handlers on the connection, are left
-- out.
pub mod Records
pub mod Session
pub mod Client
pub mod Settled
pub mod Fields
pub mod Pages
use fitz_py.Prelude.{
  ℕ, zero, suc, String, Bool, true, false, not, ◌||◌, ◌&&◌, [], ◌∷◌, List, ◌==◌, if◌then◌else◌,
  Option, none, some, length,
}
use fitz_py.Prelude.Bytes.{Bytes}
use fitz_py.Errors.{Error, stream, domain_error, value_error, Result}
use fitz_py.Exec.{Exec, pure, raise, guard, ◌>>=◌, ◌>>◌}
use fitz_py.Text.{Str, codes, str_eq}
use fitz_py.Protocol.Buffer.{Writer, written, write_u8, write_u32_be, write_bytes, write_string}
use fitz_py.Domains.Routes.{is_exact_route_shape, is_selector_route_shape}

pub record StreamRecord : Type 0 where
  pub route : Str
  pub offset : ℕ
  pub area_offset : Option ℕ
  pub realm_offset : Option ℕ
  pub global_offset : Option ℕ
  pub body : Bytes
  pub metadata : Option Bytes
  pub timestamp : ℕ

pub record StreamMetadata : Type 0 where
  pub first_offset : ℕ
  pub last_offset : ℕ
  pub record_count : ℕ
  pub max_batch_events : Option ℕ
  pub max_batch_bytes : Option ℕ
  pub ttl_seconds : Option ℕ
  pub area_watermark : Option ℕ
  pub realm_watermark : Option ℕ

pub record StreamFilterClause : Type 0 where
  pub kind : Str
  pub value : Str
  pub values : List Str

pub data StreamFilteredReason : Type 0 where
  server_filter permission projection : StreamFilteredReason

pub data StreamReadItemKind : Type 0 where
  event filtered filtered_range : StreamReadItemKind

pub record StreamReadCursor : Type 0 where
  pub last_resource_offset : ℕ
  pub last_area_offset : Option ℕ
  pub last_realm_offset : Option ℕ
  pub last_global_offset : Option ℕ
  pub cursor_fingerprint : Option ℕ
  pub captured_watermark : Option ℕ
  pub has_more : Bool

-- `entry` is the attribute `record`.
pub record StreamReadItem : Type 0 where
  pub kind : StreamReadItemKind
  pub route : Str
  pub entry : Option StreamRecord
  pub offset : ℕ
  pub from_offset : ℕ
  pub to_offset : ℕ
  pub reason : Option StreamFilteredReason

pub record StreamReadPage : Type 0 where
  pub items : List StreamReadItem
  pub cursor : StreamReadCursor

pub data StreamCommitMode : Type 0 where
  buffered sync : StreamCommitMode

-- The default of `StreamReadCursor`.
abbrev pub empty_cursor : StreamReadCursor
empty_cursor = record {
  last_resource_offset = 0;
  last_area_offset = none;
  last_realm_offset = none;
  last_global_offset = none;
  cursor_fingerprint = none;
  captured_watermark = none;
  has_more = false;
}

-- `StreamError` with a code of its own.
abbrev pub stream_error : String → Error
stream_error code = domain_error stream code none none none

-- `_assert_stream_route`
unfoldable pub assert_stream_route : {S : Type 0} → Str → Exec S Unit
assert_stream_route route =
    guard (is_exact_route_shape route (codes "stream") 3) (stream_error "INVALID_ROUTE")

-- `_assert_stream_pattern`
unfoldable pub assert_stream_pattern : {S : Type 0} → Str → Exec S Unit
assert_stream_pattern pattern =
    guard
      (not (
        str_eq pattern (codes "stream://*/**")
        || not (is_selector_route_shape pattern (codes "stream") 3 true false)))
      (stream_error "INVALID_ROUTE")

unfoldable pub write_sized : Bytes → Writer Unit
write_sized bs = do write_u32_be (length bs); write_bytes bs

-- A flag, and what it announces.
unfoldable pub write_optional : {A : Type 0} → (A → Writer Unit) → Option A → Writer Unit
write_optional write none = write_u8 0
write_optional write (some a) = do write_u8 1; write a

unfoldable pub write_values : List Str → Writer Unit
write_values [] = pure tt
write_values (value ∷ values) = do write_string value; write_values values

-- `_encode_stream_filter_clause`
unfoldable pub encode_stream_filter_clause : StreamFilterClause → Writer Unit
encode_stream_filter_clause clause =
    if str_eq clause.kind (codes "Equals")
    then (do write_u8 0; write_string clause.value)
    else if str_eq clause.kind (codes "NotEquals")
    then (do write_u8 1; write_string clause.value)
    else if str_eq clause.kind (codes "StartsWith")
    then (do write_u8 2; write_string clause.value)
    else if str_eq clause.kind (codes "AnyOf")
    then (do write_u8 3; write_u32_be (length clause.values); write_values clause.values)
    else raise value_error

unfoldable pub write_clauses : List StreamFilterClause → Writer Unit
write_clauses [] = pure tt
write_clauses (clause ∷ clauses) = do encode_stream_filter_clause clause; write_clauses clauses

-- `_encode_stream_filter_set`: no filter is one without clauses.
unfoldable pub encode_stream_filter_set : List StreamFilterClause → Result Bytes
encode_stream_filter_set [] = Result.ok []
encode_stream_filter_set (clause ∷ clauses) = written (do
  write_u8 0
  write_u8 0xF1
  write_u32_be (length (clause ∷ clauses))
  write_clauses (clause ∷ clauses))
