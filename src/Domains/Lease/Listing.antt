-- ===== src/Domains/Lease/Listing.antt =====
-- The iteration over all pages of the lease list.
use fitz_py.Prelude.{
  ℕ, zero, suc, ◌^◌, ◌<◌, ◌≡◌, refl, ap, ◌++◌, [], ◌∷◌, List, length, true, Option, none, some,
  arith,
}
use fitz_py.Prelude.Bytes.{Bytes, to_bytes}
use fitz_py.Errors.{ok}
use fitz_py.Text.{Str, codes}
use fitz_py.Text.Utf8.{encode_utf8}
use fitz_py.Protocol.Buffer.{write_u8, write_u32_be, write_u64_be, write_route}
use fitz_py.Protocol.Buffer.Writes.{
  Writes, Writes-then, Writes-uint, Writes-string, written-Writes, string_bytes,
}
use fitz_py.Protocol.Response.Envelope.{parse_response-success_bytes}
use fitz_py.Protocol.Messages.{msg_lease_list}
use fitz_py.Domains.Routes.{is_selector_route_shape}
use fitz_py.Domains.Link.{
  Link, Reply, Sent, call, request_frame, request_frame_with_flags, succeeded,
}
use fitz_py.Domains.Lease.{LeaseListCursor, LeaseListItem, check_pattern, check_u32}
use fitz_py.Domains.Lease.Client.{
  write_cursor, list_payload, list_page, list_from, list_leases, limit_or_zero,
}
use fitz_py.Domains.Lease.Pages.{
  Stored, items_of, page_bytes, page_of, IsPage, IsCursor, read_page-page_bytes,
}

-- What the broker holds: the pages before the last, each with the cursor to the next, and the last.
pub record Inventory : Type 0 where
  pub first_pages : List (List Stored × LeaseListCursor)
  pub last_page : List Stored

abbrev pub ArePages : List (List Stored × LeaseListCursor) → Type 0
ArePages [] = Unit {0}
ArePages ((es, c) ∷ ps) = IsPage es (some c) × ArePages ps

abbrev pub IsInventory : Inventory → Type 0
IsInventory v = ArePages v.first_pages × IsPage v.last_page none

-- All items, in order.
abbrev pub items_from : List (List Stored × LeaseListCursor) → List Stored → List LeaseListItem
items_from [] last = items_of last
items_from ((es, c) ∷ ps) last = items_of es ++ items_from ps last

module _ (link : Link) where
  -- The answer that carries a page.
  abbrev pub reply : List Stored → Option LeaseListCursor → Reply
  reply es c = record {
    answer = ok (0 ∷ page_bytes es c);
    generation = link.generation;
    lost = link.lost;
  }

  abbrev pub replies_from : List (List Stored × LeaseListCursor) → List Stored → List Reply
  replies_from [] last = reply last none ∷ []
  replies_from ((es, c) ∷ ps) last = reply es (some c) ∷ replies_from ps last

-- The wire form of a request for the page at a cursor.
abbrev pub request_bytes : Bytes → Option ℕ → Option LeaseListCursor → Bytes
request_bytes pattern limit none =
    string_bytes pattern ++ (to_bytes 1 0 ++ to_bytes 4 (limit_or_zero limit))
request_bytes pattern limit (some c) =
    string_bytes pattern
    ++ ((to_bytes 1 1 ++ (to_bytes 8 c.snapshot_id ++ to_bytes 4 c.start))
        ++ to_bytes 4 (limit_or_zero limit))

abbrev pub frame : Bytes → Option ℕ → Option LeaseListCursor → Sent
frame pattern limit c = record {
  message_type = msg_lease_list;
  payload = request_bytes pattern limit c;
  flags = 0;
}

-- The requests after the one at the cursor `c`, the last first as a link keeps them.
abbrev pub frames_from :
    Bytes
    → Option ℕ
    → Option LeaseListCursor
    → List (List Stored × LeaseListCursor)
    → List Sent
    → List Sent
frames_from pattern limit c [] sent = frame pattern limit c ∷ sent
frames_from pattern limit c ((es, next) ∷ ps) sent =
    frames_from pattern limit (some next) ps (frame pattern limit c ∷ sent)

-- The arguments of a listing that the client accepts.
pub record IsListable (pattern : Str) (pattern_bytes : Bytes) (limit : Option ℕ) : Type 0 where
  pub shape : is_selector_route_shape pattern (codes "lease") 3 true true ≡ true
  pub encodes : encode_utf8 pattern ≡ some pattern_bytes
  pub fits : length pattern_bytes < 2 ^ 32
  pub limit_fits : limit_or_zero limit < 256 ^ 4

check_u32_fits :
    (limit : Option ℕ) (s : Link) → limit_or_zero limit < 256 ^ 4 → check_u32 limit s ≡ (ok tt, s)
unfolding check_u32
check_u32_fits none s h = refl
check_u32_fits (some limit) s h = ground arith

module _ (pattern : Str) (pattern_bytes : Bytes) (limit : Option ℕ)
    (given : IsListable pattern pattern_bytes limit) where
  list_payload-Writes :
      (c : Option LeaseListCursor)
      → IsCursor c
      → Writes (list_payload pattern c limit) (request_bytes pattern_bytes limit c)
  unfolding list_payload write_cursor write_u8 write_u32_be write_u64_be write_route
  list_payload-Writes none h =
      Writes-then (Writes-string pattern pattern_bytes given.encodes given.fits) (
        Writes-then (Writes-uint 1 0 (omega arith))
          (Writes-uint 4 (limit_or_zero limit) given.limit_fits))
  list_payload-Writes (some c) (hs, ho) =
      Writes-then (Writes-string pattern pattern_bytes given.encodes given.fits) (
        Writes-then
          (Writes-then (Writes-uint 1 1 (omega arith))
            (Writes-then (Writes-uint 8 c.snapshot_id hs) (Writes-uint 4 c.start ho)))
          (Writes-uint 4 (limit_or_zero limit) given.limit_fits))

  list_page-reply :
      (c next : Option LeaseListCursor) (es : List Stored) (link s : Link) (rest : List Reply)
      → IsCursor c
      → IsPage es next
      → s.replies ≡ reply link es next ∷ rest
      → list_page pattern c limit s ≡ (
        ok (page_of es next),
        record s {
          generation = link.generation;
          lost = link.lost;
          replies = rest;
          sent = frame pattern_bytes limit c ∷ s.sent;
        },
      )
  unfolding list_page check_pattern call request_frame request_frame_with_flags succeeded
  list_page-reply c next es link s rest hc hp e =
      rw
        (
          given.shape,
          check_u32_fits limit s given.limit_fits,
          written-Writes _ _ (list_payload-Writes c hc),
          e,
          parse_response-success_bytes (page_bytes es next),
          read_page-page_bytes es next hp,
        )
        refl

  list_from-replies :
      (fuel : ℕ) (ps : List (List Stored × LeaseListCursor)) (last : List Stored)
      (c : Option LeaseListCursor) (s : Link) (rest : List Reply)
      → length ps < fuel
      → IsCursor c
      → ArePages ps
      → IsPage last none
      → s.replies ≡ replies_from s ps last ++ rest
      → list_from fuel pattern limit c s ≡ (
        record { items = items_from ps last; stop = ok tt },
        record s { replies = rest; sent = frames_from pattern_bytes limit c ps s.sent },
      )
  unfolding list_from
  list_from-replies zero ps last c s rest l hc hp hl e = absurd (omega arith)
  list_from-replies (suc fuel) [] last c s rest l hc hp hl e =
      rw (list_page-reply c none last s s rest hc hl e) refl
  list_from-replies (suc fuel) ((es, next) ∷ ps) last c s rest l hc (hp, hps) hl e =
      let now = replies_from s ps last ++ rest in
      let after = record s { replies = now; sent = frame pattern_bytes limit c ∷ s.sent } in
      rw
        (
          list_page-reply c (some next) es s s now hc hp e,
          list_from-replies fuel ps last (some next) after rest (omega arith) (hp.1.1) hps hl refl,
        )
        refl

length-replies_from :
    (s : Link) (ps : List (List Stored × LeaseListCursor)) (last : List Stored) (rest : List Reply)
    → length ps < length (replies_from s ps last ++ rest)
length-replies_from s [] last rest = omega arith
length-replies_from s ((es, c) ∷ ps) last rest = omega (arith, length-replies_from s ps last rest)

-- Where the broker answers with the pages of an inventory one after the other, a listing with a
-- valid pattern and a limit that fits yields all the items in order and ends without an error. It
-- asks once for each page, each time but the first with the cursor of the page before, and takes no
-- other answer.
pub list_leases-items_from :
    (pattern : Str) (pattern_bytes : Bytes) (limit : Option ℕ) (v : Inventory) (s : Link)
    (rest : List Reply)
    → IsListable pattern pattern_bytes limit
    → IsInventory v
    → s.replies ≡ replies_from s v.first_pages v.last_page ++ rest
    → list_leases pattern limit s ≡ (
      record { items = items_from v.first_pages v.last_page; stop = ok tt },
      record s { replies = rest; sent = frames_from pattern_bytes limit none v.first_pages s.sent },
    )
unfolding list_leases
list_leases-items_from pattern pattern_bytes limit v s rest given (hps, hl) e =
    let enough = length-replies_from s v.first_pages v.last_page rest in
    list_from-replies pattern pattern_bytes limit given (suc (length s.replies)) v.first_pages
      v.last_page none s rest (omega (arith, ap length e)) tt hps hl e
