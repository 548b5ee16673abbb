-- ===== src/Protocol/Extensions/Rounds.antt =====
-- The decoding loop of extensions.py: one round, and that the loop ends.
use fitz_py.Prelude.{
  ℕ, zero, suc, ◌+◌, ◌-◌, ◌^◌, ◌≤◌, ◌<◌, ◌≡◌, ◌≢◌, ◌⊎◌, inl, inr, refl, ap, ◌++◌, List, ltb, ◌==◌,
  length, length-append, arith, true, false, Bool, Bool-cases, ltb_ge, ltb→lt, ltb_false→le, drop,
  take_eq, drop_eq, Option, ◌&&◌,
}
use mathlib.Core.List.{append_assoc}
use fitz_py.Prelude.Bytes.{Bytes, to_bytes, length-to_bytes, from_bytes-to_bytes}
use fitz_py.Errors.{Error, Result, ok, err, diverged}
use fitz_py.Protocol.Extensions.{
  unpack_from, Scan, scan_field, scan, scan_start, decode_extensions, decode_payload,
  capability_list, encode_capabilities, read_ids,
}

pub unpack_from_lem :
    (size v k : ℕ) (pre post : Bytes)
    → v < 256 ^ size
    → length pre ≡ k
    → unpack_from size (pre ++ (to_bytes size v ++ post)) k ≡ ok v
unfolding unpack_from
unpack_from_lem size v k pre post h e =
    let here : drop k (pre ++ (to_bytes size v ++ post)) ≡ to_bytes size v ++ post =
      drop_eq k pre _ e in
    let width : k + size - k ≡ size = omega arith in
    rw (
      ltb_ge (length (pre ++ (to_bytes size v ++ post))) (k + size) (
          omega (
            arith,
            length-append pre (to_bytes size v ++ post),
            length-append (to_bytes size v) post,
            length-to_bytes size v,
          )),
      here,
      width,
      take_eq size (to_bytes size v) post (length-to_bytes size v),
      from_bytes-to_bytes size v h,
    )

-- A round either fails, or moves the cursor on by six bytes at least and not past the end.
scan_field_moves :
    (handshake : Bool) (view : Bytes) (s s' : Scan)
    → s.cursor < length view
    → scan_field handshake view s ≡ ok s'
    → (s.cursor + 6 ≤ s'.cursor) × (s'.cursor ≤ length view)
unfolding scan_field
scan_field_moves handshake view s s' h e = ground arith

unpack_from-ne-diverged : (size : ℕ) (view : Bytes) (k : ℕ) → unpack_from size view k ≢ err diverged
unfolding unpack_from
unpack_from-ne-diverged size view k = ground arith

read_ids-ne-diverged : (n : ℕ) (view : Bytes) (k : ℕ) → read_ids n view k ≢ err diverged
unfolding read_ids
read_ids-ne-diverged zero view k = λ e. cc
read_ids-ne-diverged (suc n) view k =
    ground (arith, unpack_from-ne-diverged 4 view k, read_ids-ne-diverged n view (k + 4))

capability_list-ne-diverged :
    (view : Bytes) (k size : ℕ) (seen : Option (List ℕ))
    → capability_list view k size seen ≢ err diverged
unfolding capability_list encode_capabilities
capability_list-ne-diverged view k size seen =
    grind (arith, unpack_from-ne-diverged, read_ids-ne-diverged)

scan_field-ne-diverged :
    (handshake : Bool) (view : Bytes) (s : Scan) → scan_field handshake view s ≢ err diverged
unfolding scan_field
scan_field-ne-diverged handshake view s =
    grind (arith, unpack_from-ne-diverged, capability_list-ne-diverged)

pub Result-cases {ℓ} :
    {A : Type ℓ} (r : Result A)
    → r ≢ err diverged
    → ((a : A) × (r ≡ ok a)) ⊎ ((e : Error) × (r ≡ err e) × (e ≢ diverged))
Result-cases (ok a) h = inl (a, refl)
Result-cases (err e) h = inr (e, refl, λ k. h (ap err k))

scan-ne-diverged :
    (fuel : ℕ) (handshake : Bool) (view : Bytes) (s : Scan)
    → s.cursor ≤ length view
    → length view < fuel + s.cursor
    → scan fuel handshake view s ≢ err diverged
unfolding scan
scan-ne-diverged zero handshake view s le h = absurd (omega arith)
scan-ne-diverged (suc fuel) handshake view s le h = elim (Bool-cases (ltb s.cursor (length view))) [
  | inr done ↦ rw done (λ e. cc)
  | inl more ↦
      elim (Result-cases (scan_field handshake view s) (scan_field-ne-diverged handshake view s)) [
        | inl (s', e) ↦
            let moved = scan_field_moves handshake view s s' (ltb→lt _ _ more) e in
            rw (more, e) (scan-ne-diverged fuel handshake view s' moved.1 (omega (arith, moved.0)))
        | inr (x, e, n) ↦ rw (more, e) (λ k. n (cc k))
      ]
]

scan_all-ne-diverged :
    (handshake : Bool) (view : Bytes) (k : ℕ)
    → ltb (length view) k ≡ false
    → scan (suc (length view)) handshake view (scan_start k) ≢ err diverged
scan_all-ne-diverged handshake view k h =
    scan-ne-diverged (suc (length view)) handshake view (scan_start k) (ltb_false→le _ _ h)
      (omega arith)

-- Decoding ends on every input: the fuel is a round for each byte, and never runs out.
pub decode_payload-ne-diverged :
    (payload : Bytes) (message_type flags : ℕ)
    → decode_payload payload message_type flags ≢ err diverged
unfolding decode_payload decode_extensions
decode_payload-ne-diverged payload message_type flags =
    grind (arith, unpack_from-ne-diverged, scan_all-ne-diverged)

-- The wire form of a list of fields.
abbrev pub entry_bytes : ℕ → Bytes → Bytes → Bytes
entry_bytes id value rest = to_bytes 2 id ++ (to_bytes 4 (length value) ++ (value ++ rest))

pub length-entry_bytes :
    (id : ℕ) (value rest : Bytes)
    → length (entry_bytes id value rest) ≡ 6 + length value + length rest
length-entry_bytes id value rest = omega (
  arith,
  length-append (to_bytes 2 id) (to_bytes 4 (length value) ++ (value ++ rest)),
  length-append (to_bytes 4 (length value)) (value ++ rest),
  length-append value rest,
  length-to_bytes 2 id,
  length-to_bytes 4 (length value),
)

-- A round on a field that is no capability list steps over it.
pub scan_field-entry :
    (handshake : Bool) (s : Scan) (pre : Bytes) (id : ℕ) (value rest : Bytes)
    → length pre ≡ s.cursor
    → 0 < id
    → id < 2 ^ 16
    → length value < 2 ^ 32
    → (handshake && id == 1) ≡ false
    → scan_field handshake (pre ++ entry_bytes id value rest) s
      ≡ ok (record {
        cursor = s.cursor + 6 + length value;
        capabilities = s.capabilities;
        fields_seen = true;
      })
unfolding scan_field
scan_field-entry handshake s pre id value rest hp h0 h16 hl hh = ground (
  arith,
  length-append pre (entry_bytes id value rest),
  length-entry_bytes id value rest,
  unpack_from_lem 2 id s.cursor pre (to_bytes 4 (length value) ++ (value ++ rest)),
  size_read,
)
  where
    size_read : unpack_from 4 (pre ++ entry_bytes id value rest) (s.cursor + 2) ≡ ok (length value)
    size_read =
        rw (← append_assoc pre (to_bytes 2 id) (to_bytes 4 (length value) ++ (value ++ rest))) (
          unpack_from_lem 4 (length value) (s.cursor + 2) (pre ++ to_bytes 2 id) (value ++ rest) hl
            (omega (arith, length-append pre (to_bytes 2 id), length-to_bytes 2 id)))
