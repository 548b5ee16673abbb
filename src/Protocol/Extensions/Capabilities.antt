-- ===== src/Protocol/Extensions/Capabilities.antt =====
-- The capability list of the handshake: what the client offers is what a HELLO with it is read as.
use fitz_py.Prelude.{
  ℕ, ◌+◌, ◌*◌, ◌^◌, ◌≤◌, ◌<◌, ◌≡◌, inr, refl, ap, sym, ◌∙◌, ◌++◌, [], ◌∷◌, List, ltb, length,
  length-append, arith, true, false, ltb_ge, lt→ltb, Option, none, some, All, ==_self, subst,
}
use mathlib.Core.List.{append_assoc}
use fitz_py.Prelude.Bytes.{Bytes, to_bytes, length-to_bytes}
use fitz_py.Errors.{ok}
use fitz_py.Protocol.Extensions.Rounds.{entry_bytes, length-entry_bytes, unpack_from_lem}
use fitz_py.Protocol.Extensions.RoundTrip.{
  entry_bytes-append, encode_entries-cons, scan_entries, encode_payload-cons, framed, length-framed,
  core-framed, decode_extensions-framed,
}
use fitz_py.Protocol.Extensions.{
  unpack_from, encode_payload, Scan, scan_field, scan, scan_start, decode_payload, capability_list,
  encode_capabilities, read_ids, has_extensions, invalid_ids, join_ids,
}

abbrev IsU32 : ℕ → Type 0
IsU32 v = v < 2 ^ 32

invalid_ids-IsU32 :
    (previous : Option ℕ) (ids : List ℕ) → invalid_ids previous ids ≡ false → All IsU32 ids
unfolding invalid_ids
invalid_ids-IsU32 previous [] h = tt
invalid_ids-IsU32 previous (v ∷ ids) h =
    (ground arith, invalid_ids-IsU32 (some v) ids (ground arith))

length-join_ids : (ids : List ℕ) → length (join_ids ids) ≡ 4 * length ids
unfolding join_ids
length-join_ids [] = refl
length-join_ids (v ∷ ids) =
    omega
      (arith, length-append (to_bytes 4 v) (join_ids ids), length-to_bytes 4 v, length-join_ids ids)

read_ids-join_ids :
    (ids : List ℕ) (k : ℕ) (pre post : Bytes)
    → All IsU32 ids
    → length pre ≡ k
    → read_ids (length ids) (pre ++ (join_ids ids ++ post)) k ≡ ok ids
unfolding read_ids join_ids
read_ids-join_ids [] k pre post h e = refl
read_ids-join_ids (v ∷ ids) k pre post h e =
    let here : pre ++ (join_ids (v ∷ ids) ++ post)
        ≡ pre ++ (to_bytes 4 v ++ (join_ids ids ++ post)) =
      ap (◌++◌ pre) (append_assoc (to_bytes 4 v) (join_ids ids) post) in
    let rest =
      read_ids-join_ids ids (k + 4) (pre ++ to_bytes 4 v) post h.1
        (omega (arith, length-append pre (to_bytes 4 v), length-to_bytes 4 v)) in
    let rest' = rw (append_assoc pre (to_bytes 4 v) (join_ids ids ++ post)) at rest in
    rw (here, unpack_from_lem 4 v k pre (join_ids ids ++ post) h.0 e, rest')

-- What an accepted list of capabilities is made of.
encode_capabilities-eq_ok :
    (ids : List ℕ) (list : Bytes)
    → encode_capabilities ids ≡ ok list
    → (list ≡ to_bytes 2 (length ids) ++ join_ids ids)
      × (length ids ≤ 65535)
      × (invalid_ids none ids ≡ false)
unfolding encode_capabilities
encode_capabilities-eq_ok ids list h = ground arith

length-list : (ids : List ℕ) → length (to_bytes 2 (length ids) ++ join_ids ids) ≡ 2 + 4 * length ids
length-list ids = omega (
  arith,
  length-append (to_bytes 2 (length ids)) (join_ids ids),
  length-to_bytes 2 (length ids),
  length-join_ids ids,
)

capability_list-join_ids :
    (ids : List ℕ) (list pre post : Bytes) (k : ℕ)
    → encode_capabilities ids ≡ ok list
    → length pre ≡ k
    → capability_list (pre ++ (list ++ post)) k (length list) none ≡ ok (some ids)
unfolding capability_list
capability_list-join_ids ids list pre post k h e =
    let (el, few, valid) = encode_capabilities-eq_ok ids list h in
    let shape : pre ++ (list ++ post) ≡ pre ++ (to_bytes 2 (length ids) ++ (join_ids ids ++ post)) =
      ap (λ t. pre ++ (t ++ post)) el
      ∙ ap (◌++◌ pre) (append_assoc (to_bytes 2 (length ids)) (join_ids ids) post) in
    let count = unpack_from_lem 2 (length ids) k pre (join_ids ids ++ post) (omega arith) e in
    let back =
      read_ids-join_ids ids (k + 2) (pre ++ to_bytes 2 (length ids)) post
        (invalid_ids-IsU32 none ids valid)
        (omega
          (arith, length-append pre (to_bytes 2 (length ids)), length-to_bytes 2 (length ids))) in
    let back' = rw (append_assoc pre (to_bytes 2 (length ids)) (join_ids ids ++ post)) at back in
    let size : length list ≡ 2 + 4 * length ids = ap length el ∙ length-list ids in
    rw (
      shape,
      size,
      ltb_ge (2 + 4 * length ids) 2 (omega arith),
      count,
      ==_self (2 + 4 * length ids),
      back',
      h,
    )

-- The round on the capability list of a handshake.
scan_field-list :
    (s : Scan) (pre rest : Bytes) (ids : List ℕ) (list : Bytes)
    → length pre ≡ s.cursor
    → s.capabilities ≡ none
    → encode_capabilities ids ≡ ok list
    → length list < 2 ^ 32
    → scan_field true (pre ++ entry_bytes 1 list rest) s
      ≡ ok (record {
        cursor = s.cursor + 6 + length list;
        capabilities = some ids;
        fields_seen = true;
      })
unfolding scan_field
scan_field-list s pre rest ids list hp hc h small = ground (
  arith,
  length-append pre (entry_bytes 1 list rest),
  length-entry_bytes 1 list rest,
  unpack_from_lem 2 1 s.cursor pre (to_bytes 4 (length list) ++ (list ++ rest)),
  size_read,
  list_read,
)
  where
    size_read : unpack_from 4 (pre ++ entry_bytes 1 list rest) (s.cursor + 2) ≡ ok (length list)
    size_read =
        rw (← append_assoc pre (to_bytes 2 1) (to_bytes 4 (length list) ++ (list ++ rest))) (
          unpack_from_lem 4 (length list) (s.cursor + 2) (pre ++ to_bytes 2 1) (list ++ rest) small
            (omega (arith, length-append pre (to_bytes 2 1), length-to_bytes 2 1)))

    header : Bytes
    header = to_bytes 2 1 ++ to_bytes 4 (length list)

    split : entry_bytes 1 list rest ≡ header ++ (list ++ rest)
    split = sym (append_assoc (to_bytes 2 1) (to_bytes 4 (length list)) (list ++ rest))

    list_read :
        capability_list (pre ++ entry_bytes 1 list rest) (s.cursor + 6) (length list) none
        ≡ ok (some ids)
    list_read =
        rw (split, ← append_assoc pre header (list ++ rest))
          (capability_list-join_ids ids list (pre ++ header) rest (s.cursor + 6) h (
            omega (
              arith,
              length-append pre header,
              length-append (to_bytes 2 1) (to_bytes 4 (length list)),
              length-to_bytes 2 1,
              length-to_bytes 4 (length list),
            )))

-- A handshake payload whose first field is a capability list is decoded to its core and the ids of
-- that list, whatever further fields there are.
pub decode_payload-handshake :
    (core : Bytes) (ids : List ℕ) (list : Bytes) (fields : List (ℕ × Bytes)) (bs : Bytes)
    (flags : ℕ)
    → encode_capabilities ids ≡ ok list
    → encode_payload core ((1, list) ∷ fields) ≡ ok bs
    → has_extensions flags ≡ true
    → decode_payload bs 2 flags ≡ ok (core, ids)
unfolding decode_payload scan
decode_payload-handshake core ids list fields bs flags hc h hf =
    let (entries, ee, eb, fits) = encode_payload-cons core (1, list) fields bs h in
    let (rest, er, es, _, _, small) = encode_entries-cons 0 1 list fields entries ee in
    let front : Bytes = to_bytes 4 (length core) ++ core in
    let size : length entries ≡ 6 + length list + length rest =
      ap length es ∙ length-entry_bytes 1 list rest in
    let whole : framed true core entries fits ≡ front ++ entry_bytes 1 list rest =
      sym (append_assoc (to_bytes 4 (length core)) core entries) ∙ ap (◌++◌ front) es in
    let at4 : length front ≡ 4 + length core =
      omega
        (arith, length-append (to_bytes 4 (length core)) core, length-to_bytes 4 (length core)) in
    let s1 : Scan = record {
      cursor = 4 + length core + 6 + length list;
      capabilities = some ids;
      fields_seen = true;
    } in
    let first : scan_field true (framed true core entries fits) (scan_start (4 + length core))
        ≡ ok s1 =
      rw whole
        (scan_field-list (scan_start (4 + length core)) front rest ids list at4 refl hc small) in
    let total = length-framed true core entries fits in
    let regroup : (front ++ entry_bytes 1 list []) ++ rest ≡ framed true core entries fits =
      append_assoc front (entry_bytes 1 list []) rest
      ∙ ap (◌++◌ front) (entry_bytes-append 1 list rest)
      ∙ sym whole in
    let (s', e', c', f') =
      scan_entries fields (length (framed true core entries fits)) 1 true s1
        (front ++ entry_bytes 1 list []) rest
        (omega (arith, length-append front (entry_bytes 1 list []), length-entry_bytes 1 list []))
        er (inr (omega arith)) (omega arith) in
    let inside : ltb (4 + length core) (length (framed true core entries fits)) ≡ true =
      lt→ltb _ _ (omega arith) in
    let e'' =
      subst (λ v. scan (length (framed true core entries fits)) true v s1 ≡ ok s') regroup e' in
    let run = decode_extensions-framed true core entries fits s' (rw (inside, first) e'') in
    let seen : s'.fields_seen ≡ true = ground arith in
    rw (hf, eb, run, c', seen, core-framed true core entries fits)
