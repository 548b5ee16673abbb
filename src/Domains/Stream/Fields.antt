-- ===== src/Domains/Stream/Fields.antt =====
-- The fields of a stream record, and the record: their wire form.
use fitz_py.Prelude.{
  ℕ, ◌^◌, ◌<◌, Bool, true, false, ◌++◌, [], ◌∷◌, length, subst, bit, Option, none, some,
}
use mathlib.Core.List.{append-nil}
use fitz_py.Prelude.Bytes.{Bytes, to_bytes}
use fitz_py.Exec.{pure, ◌>>=◌}
use fitz_py.Protocol.Buffer.{read_u32_be, read_u64_be}
use fitz_py.Protocol.Buffer.RoundTrip.{optional_bytes, Fits}
use fitz_py.Protocol.Buffer.Reads.{Reads, Reads-bytes, Reads-bind, Reads-pure, Reads-uint, Reads-u8}
use fitz_py.Domains.Stream.{
  StreamRecord, StreamFilteredReason, server_filter, permission, projection,
}
use fitz_py.Domains.Stream.Records.{
  read_optional_u64, read_optional_bytes, read_extended, read_stream_record, read_filtered_reason,
  read_bool_u8,
}

read_some :
    (v : ℕ)
    → v < 256 ^ 8
    → Reads (read_u64_be >>= λ value. pure (some value)) (some v) (to_bytes 8 v)
unfolding read_u64_be
read_some v h =
    subst (Reads (read_u64_be >>= λ value. pure (some value)) (some v)) (append-nil (to_bytes 8 v))
      (Reads-bind _ (Reads-uint 8 v h) (Reads-pure (some v)))

pub Reads-optional_u64 : (v : Option ℕ) → Fits v → Reads read_optional_u64 v (optional_bytes v)
unfolding read_optional_u64 read_u64_be
Reads-optional_u64 none h = Reads-bind _ (Reads-u8 0) (Reads-pure none)
Reads-optional_u64 (some v) h = Reads-bind _ (Reads-u8 1) (read_some v h)

-- Optional bytes behind their flag and their length.
abbrev pub sized_bytes : Option Bytes → Bytes
sized_bytes none = 0 ∷ []
sized_bytes (some bs) = 1 ∷ (to_bytes 4 (length bs) ++ (bs ++ []))

abbrev pub FitsSized : Option Bytes → Type 0
FitsSized none = Unit {0}
FitsSized (some bs) = length bs < 256 ^ 4

pub Reads-optional_bytes :
    (v : Option Bytes) → FitsSized v → Reads read_optional_bytes v (sized_bytes v)
unfolding read_optional_bytes read_u32_be
Reads-optional_bytes none h = Reads-bind _ (Reads-u8 0) (Reads-pure none)
Reads-optional_bytes (some bs) h = Reads-bind _ (Reads-u8 1) (
    Reads-bind _ (Reads-uint 4 (length bs) h)
      (Reads-bind _ (Reads-bytes bs) (Reads-pure (some bs))))

-- A field that only pages over all realms have.
abbrev pub extended_bytes : Bool → Option ℕ → Bytes
extended_bytes true v = optional_bytes v
extended_bytes false v = []

abbrev pub held : Bool → Option ℕ → Option ℕ
held true v = v
held false v = none

pub Reads-extended :
    (extended : Bool) (v : Option ℕ)
    → Fits v
    → Reads (read_extended extended) (held extended v) (extended_bytes extended v)
unfolding read_extended
Reads-extended true v h = Reads-optional_u64 v h
Reads-extended false v h = Reads-pure none

abbrev pub reason_bytes : Option StreamFilteredReason → Bytes
reason_bytes none = 0 ∷ []
reason_bytes (some server_filter) = 1 ∷ []
reason_bytes (some permission) = 2 ∷ []
reason_bytes (some projection) = 3 ∷ []

pub Reads-reason :
    (reason : Option StreamFilteredReason) → Reads read_filtered_reason reason (reason_bytes reason)
unfolding read_filtered_reason
Reads-reason none = Reads-bind _ (Reads-u8 0) (Reads-pure none)
Reads-reason (some server_filter) = Reads-bind _ (Reads-u8 1) (Reads-pure (some server_filter))
Reads-reason (some permission) = Reads-bind _ (Reads-u8 2) (Reads-pure (some permission))
Reads-reason (some projection) = Reads-bind _ (Reads-u8 3) (Reads-pure (some projection))

pub Reads-bool : (b : Bool) → Reads read_bool_u8 b (bit b ∷ [])
unfolding read_bool_u8
Reads-bool true = Reads-bind _ (Reads-u8 1) (Reads-pure true)
Reads-bool false = Reads-bind _ (Reads-u8 0) (Reads-pure false)

abbrev pub record_bytes : Bool → StreamRecord → Bytes
record_bytes extended r =
    to_bytes 8 r.offset
    ++ (optional_bytes r.area_offset
        ++ (optional_bytes r.realm_offset
            ++ (extended_bytes extended r.global_offset
                ++ (to_bytes 4 (length r.body)
                    ++ (r.body ++ (sized_bytes r.metadata ++ (to_bytes 8 r.timestamp ++ [])))))))

pub record IsRecord (r : StreamRecord) : Type 0 where
  pub offset_fits : r.offset < 256 ^ 8
  pub area_fits : Fits r.area_offset
  pub realm_fits : Fits r.realm_offset
  pub global_fits : Fits r.global_offset
  pub body_fits : length r.body < 256 ^ 4
  pub metadata_fits : FitsSized r.metadata
  pub timestamp_fits : r.timestamp < 256 ^ 8

-- The record as a page with or without the fields of all realms has it.
abbrev pub seen : Bool → StreamRecord → StreamRecord
seen extended r = record r { global_offset = held extended r.global_offset }

pub Reads-record :
    (extended : Bool) (r : StreamRecord)
    → IsRecord r
    → Reads (read_stream_record r.route extended) (seen extended r) (record_bytes extended r)
unfolding read_stream_record read_u64_be read_u32_be
Reads-record extended r h = Reads-bind _ (Reads-uint 8 r.offset h.offset_fits) (
    Reads-bind _ (Reads-optional_u64 r.area_offset h.area_fits) (
      Reads-bind _ (Reads-optional_u64 r.realm_offset h.realm_fits) (
        Reads-bind _ (Reads-extended extended r.global_offset h.global_fits) (
          Reads-bind _ (Reads-uint 4 (length r.body) h.body_fits) (
            Reads-bind _ (Reads-bytes r.body) (
              Reads-bind _ (Reads-optional_bytes r.metadata h.metadata_fits) (
                Reads-bind _ (Reads-uint 8 r.timestamp h.timestamp_fits)
                  (Reads-pure (seen extended r)))))))))
