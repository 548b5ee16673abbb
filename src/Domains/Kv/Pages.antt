-- ===== src/Domains/Kv/Pages.antt =====
-- The pages of a scan against their wire form.
use fitz_py.Prelude.{
  ◌-◌, ◌*◌, ◌/◌, ◌^◌, ◌<◌, ◌≤◌, ◌≡◌, Bool, true, false, ◌++◌, [], ◌∷◌, List, length, All, bit, ltb,
  arith, length-append,
}
use fitz_py.Prelude.Bytes.{Bytes, to_bytes, length-to_bytes}
use fitz_py.Errors.{ok}
use fitz_py.Protocol.Buffer.{reader, read_u32_be}
use fitz_py.Protocol.Buffer.Reads.{
  Reads, ReadsAll, Reads-bytes, Reads-bind, Reads-pure, Reads-uint, Reads-u8, ReadsAll-bind,
  ReadsAll-bind_last, ReadsAll-is_eof, ReadsAll-pure, ReadsAll-remaining_bytes, reader-ReadsAll,
}
use fitz_py.Domains.Kv.{KvPair, KvScanPage, read_pairs, read_page_end, read_page}

abbrev pub pair_bytes : KvPair → Bytes → Bytes
pair_bytes p rest =
    to_bytes 4 (length p.key)
    ++ (p.key ++ (to_bytes 4 (length p.value) ++ (p.value ++ (rest ++ []))))

abbrev pub pairs_bytes : List KvPair → Bytes
pairs_bytes [] = []
pairs_bytes (p ∷ ps) = pair_bytes p (pairs_bytes ps)

abbrev pub page_bytes : KvScanPage → Bytes
page_bytes page =
    to_bytes 4 (length page.entries) ++ (pairs_bytes page.entries ++ (bit page.has_more ∷ []))

-- The lengths of a pair fit in four bytes each.
abbrev pub IsPair : KvPair → Type 0
IsPair p = (length p.key < 256 ^ 4) × (length p.value < 256 ^ 4)

read_pairs-Reads :
    (ps : List KvPair) → All IsPair ps → Reads (read_pairs (length ps)) ps (pairs_bytes ps)
unfolding read_pairs read_u32_be
read_pairs-Reads [] h = Reads-pure []
read_pairs-Reads (p ∷ ps) ((hk, hv), hs) = Reads-bind _ (Reads-uint 4 (length p.key) hk) (
    Reads-bind _ (Reads-bytes p.key) (
      Reads-bind _ (Reads-uint 4 (length p.value) hv) (
        Reads-bind _ (Reads-bytes p.value)
          (Reads-bind _ (read_pairs-Reads ps hs) (Reads-pure (p ∷ ps))))))

length-pairs_bytes : (ps : List KvPair) → 8 * length ps ≤ length (pairs_bytes ps)
length-pairs_bytes [] = omega arith
length-pairs_bytes (p ∷ ps) =
    let rest = pairs_bytes ps in
    let last = p.value ++ (rest ++ []) in
    omega (
      arith,
      length-pairs_bytes ps,
      length-to_bytes 4 (length p.key),
      length-to_bytes 4 (length p.value),
      length-append (to_bytes 4 (length p.key)) (p.key ++ (to_bytes 4 (length p.value) ++ last)),
      length-append p.key (to_bytes 4 (length p.value) ++ last),
      length-append (to_bytes 4 (length p.value)) last,
      length-append p.value (rest ++ []),
      length-append rest [],
    )

read_page_end-ReadsAll :
    (entries : List KvPair) (more : Bool)
    → ReadsAll
        (read_page_end entries)
        (record { entries = entries; has_more = more })
        (bit more ∷ [])
unfolding read_page_end
read_page_end-ReadsAll entries true =
    ReadsAll-bind_last _ (Reads-u8 1) (ReadsAll-is_eof _ (ReadsAll-pure _ []))
read_page_end-ReadsAll entries false =
    ReadsAll-bind_last _ (Reads-u8 0) (ReadsAll-is_eof _ (ReadsAll-pure _ []))

-- A page whose keys and values fit their length fields is read back pair by pair, in order, with its
-- flag; the test of the pair count against the payload's size never refuses it.
pub read_page-page_bytes :
    (page : KvScanPage)
    → All IsPair page.entries
    → length page.entries < 256 ^ 4
    → (read_page (reader (page_bytes page))).0 ≡ ok page
unfolding read_page read_u32_be
read_page-page_bytes page h hl =
    let tail = pairs_bytes page.entries ++ (bit page.has_more ∷ []) in
    let long = length-append (pairs_bytes page.entries) (bit page.has_more ∷ []) in
    let most = length-pairs_bytes page.entries in
    let fits : ltb ((length tail - 1) / 8) (length page.entries) ≡ false = ground arith in
    reader-ReadsAll read_page page _ (
      ReadsAll-bind _ (Reads-uint 4 (length page.entries) hl) (
        ReadsAll-remaining_bytes _ (
          rw fits (
            ReadsAll-bind _ (read_pairs-Reads page.entries h)
              (read_page_end-ReadsAll page.entries page.has_more)))))
