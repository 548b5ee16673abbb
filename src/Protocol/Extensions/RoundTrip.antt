-- ===== src/Protocol/Extensions/RoundTrip.antt =====
-- `decode_payload` reads back what `encode_payload` wrote.
use fitz_py.Prelude.{
  ℕ, zero, suc, ◌+◌, ◌-◌, ◌^◌, ◌≤◌, ◌<◌, ◌≡◌, ◌⊎◌, inl, inr, refl, ap, sym, ◌∙◌, ◌++◌, [], ◌∷◌,
  List, ltb, ◌==◌, length, length-append, arith, true, false, Bool, ltb_ge, lt→ltb, take_eq,
  drop_eq, ◌||◌, not, is_empty,
}
use mathlib.Core.List.{append_assoc, append-nil}
use fitz_py.Prelude.Bytes.{Bytes, to_bytes, length-to_bytes}
use fitz_py.Errors.{Result, ok, err}
use fitz_py.Protocol.Frame.{slice}
use fitz_py.Protocol.Extensions.Rounds.{
  entry_bytes, length-entry_bytes, scan_field-entry, unpack_from_lem,
}
use fitz_py.Protocol.Extensions.{
  pack, encode_entries, encode_payload, Scan, scan_field, scan, scan_start, decode_extensions,
  decode_payload, has_extensions, decoded_payload,
}

pub entry_bytes-append :
    (id : ℕ) (value rest : Bytes) → entry_bytes id value [] ++ rest ≡ entry_bytes id value rest
entry_bytes-append id value rest = simp (append_assoc, append-nil)

-- What an accepted list of fields is made of.
pub encode_entries-cons :
    (previous id : ℕ) (value : Bytes) (fields : List (ℕ × Bytes)) (bs : Bytes)
    → encode_entries previous ((id, value) ∷ fields) ≡ ok bs
    → (rest : Bytes) × (encode_entries id fields ≡ ok rest)
      × (bs ≡ entry_bytes id value rest)
      × (previous < id)
      × (id < 2 ^ 16)
      × (length value < 2 ^ 32)
unfolding encode_entries pack
encode_entries-cons previous id value fields bs h = inspect (encode_entries id fields) refl
  where
    inspect :
        (r : Result Bytes)
        → encode_entries id fields ≡ r
        → (rest : Bytes) × (encode_entries id fields ≡ ok rest)
          × (bs ≡ entry_bytes id value rest)
          × (previous < id)
          × (id < 2 ^ 16)
          × (length value < 2 ^ 32)
    inspect (ok rest) e = (rest, e, ground arith, ground arith, ground arith, ground arith)
    inspect (err x) e = absurd (ground arith)

-- The loop steps over fields that carry no capability list.
pub scan_entries :
    (fields : List (ℕ × Bytes)) (fuel previous : ℕ) (handshake : Bool) (s : Scan) (pre bs : Bytes)
    → length pre ≡ s.cursor
    → encode_entries previous fields ≡ ok bs
    → (handshake ≡ false) ⊎ (1 ≤ previous)
    → length bs < fuel
    → (s' : Scan) × (scan fuel handshake (pre ++ bs) s ≡ ok s')
      × (s'.capabilities ≡ s.capabilities)
      × (s'.fields_seen ≡ (not (is_empty fields) || s.fields_seen))
unfolding scan
scan_entries fields zero previous handshake s pre bs hp he hh hf = absurd (omega arith)
scan_entries [] (suc fuel) previous handshake s pre bs hp he hh hf =
    unfold encode_entries in
    let e : bs ≡ [] = cc in (s, rw (e, append-nil pre, hp) (ground arith), refl, refl)
scan_entries ((id, value) ∷ fields) (suc fuel) previous handshake s pre bs hp he hh hf =
    let (rest, er, eb, above, fits, small) = encode_entries-cons previous id value fields bs he in
    let s1 : Scan = record {
      cursor = s.cursor + 6 + length value;
      capabilities = s.capabilities;
      fields_seen = true;
    } in
    let size = length-entry_bytes id value in
    let long : length bs ≡ 6 + length value + length rest = rw eb (size rest) in
    let step : scan_field handshake (pre ++ bs) s ≡ ok s1 =
      rw eb (
        scan_field-entry handshake s pre id value rest hp (omega arith) fits small
          (ground arith)) in
    let whole : pre ++ bs ≡ (pre ++ entry_bytes id value []) ++ rest =
      ap (◌++◌ pre) (eb ∙ sym (entry_bytes-append id value rest))
      ∙ sym (append_assoc pre (entry_bytes id value []) rest) in
    let (s', e', c', f') =
      scan_entries fields fuel id handshake s1 (pre ++ entry_bytes id value []) rest
        (omega (arith, length-append pre (entry_bytes id value []), size [])) er (inr (omega arith))
        (omega arith) in
    let inside : ltb s.cursor (length (pre ++ bs)) ≡ true =
      lt→ltb _ _ (omega (arith, length-append pre bs)) in
    (s', rw (inside, step) (rw (← whole) at e'), c', ground arith)

pub encode_payload-cons :
    (core : Bytes) (field : ℕ × Bytes) (fields : List (ℕ × Bytes)) (bs : Bytes)
    → encode_payload core (field ∷ fields) ≡ ok bs
    → (entries : Bytes) × (encode_entries 0 (field ∷ fields) ≡ ok entries)
      × (bs ≡ to_bytes 4 (length core) ++ (core ++ entries))
      × (length core < 2 ^ 32)
unfolding encode_payload pack
encode_payload-cons core field fields bs h = inspect (encode_entries 0 (field ∷ fields)) refl
  where
    inspect :
        (r : Result Bytes)
        → encode_entries 0 (field ∷ fields) ≡ r
        → (entries : Bytes) × (encode_entries 0 (field ∷ fields) ≡ ok entries)
          × (bs ≡ to_bytes 4 (length core) ++ (core ++ entries))
          × (length core < 2 ^ 32)
    inspect (ok entries) e = (entries, e, ground arith, ground arith)
    inspect (err x) e = absurd (ground arith)

-- The frame around the loop: the core comes back, if the loop ends well.
module _ (handshake : Bool) (core entries : Bytes) (fits : length core < 2 ^ 32) where
  abbrev pub framed : Bytes
  framed = to_bytes 4 (length core) ++ (core ++ entries)

  pub length-framed : length framed ≡ 4 + length core + length entries
  length-framed = omega (
    arith,
    length-append (to_bytes 4 (length core)) (core ++ entries),
    length-append core entries,
    length-to_bytes 4 (length core),
  )

  pub core-framed : slice 4 (4 + length core) framed ≡ core
  core-framed =
      let front =
        drop_eq 4 (to_bytes 4 (length core)) (core ++ entries) (length-to_bytes 4 (length core)) in
      let width : 4 + length core - 4 ≡ length core = omega arith in
      rw (front, width) (take_eq (length core) core entries refl)

  pub decode_extensions-framed :
      (s : Scan)
      → scan (suc (length framed)) handshake framed (scan_start (4 + length core)) ≡ ok s
      → decode_extensions handshake framed ≡ decoded_payload handshake framed (4 + length core) s
  unfolding decode_extensions
  decode_extensions-framed s e = rw (
    ltb_ge (length framed) 4 (omega (arith, length-framed)),
    unpack_from_lem 4 (length core) 0 [] (core ++ entries) fits refl,
    ltb_ge (length framed) (4 + length core) (omega (arith, length-framed)),
    e,
  )

-- A payload with extension fields, of a message other than HELLO, is decoded to its core; the
-- fields are checked and passed over.
pub decode_payload-encode_payload :
    (core : Bytes) (field : ℕ × Bytes) (fields : List (ℕ × Bytes)) (bs : Bytes)
    (message_type flags : ℕ)
    → encode_payload core (field ∷ fields) ≡ ok bs
    → (message_type == 2) ≡ false
    → has_extensions flags ≡ true
    → decode_payload bs message_type flags ≡ ok (core, [])
unfolding decode_payload
decode_payload-encode_payload core field fields bs message_type flags h ht hf =
    let (entries, ee, eb, fits) = encode_payload-cons core field fields bs h in
    let size = length-framed false core entries fits in
    let (s, es, ec, ef) =
      scan_entries (field ∷ fields) (suc (length (framed false core entries fits))) 0 false
        (scan_start (4 + length core)) (to_bytes 4 (length core) ++ core) entries
        (omega
          (arith, length-append (to_bytes 4 (length core)) core, length-to_bytes 4 (length core)))
        ee (inl refl) (omega arith) in
    let run =
      decode_extensions-framed false core entries fits s
        (rw (append_assoc (to_bytes 4 (length core)) core entries) at es) in
    rw (hf, ht, eb, run, ef, ec, core-framed false core entries fits)
