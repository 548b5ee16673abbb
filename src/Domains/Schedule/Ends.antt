-- ===== src/Domains/Schedule/Ends.antt =====
-- Reading a page of the schedule list ends.
use fitz_py.Prelude.{
  ℕ, zero, suc, ◌<◌, ◌≢◌, Bool, true, false, [], ◌∷◌, List, length, if◌then◌else◌, ltb, leb, ◌==◌,
  arith, Option, none, some,
}
use fitz_py.Prelude.Bytes.{Bytes}
use fitz_py.Errors.{Result, ok, err, diverged, schedule}
use fitz_py.Exec.{pure, raise, continue, ◌>>=◌}
use fitz_py.Text.{Str}
use fitz_py.Protocol.Buffer.{
  BufferReader, Reader, reader, read_u8, read_u32_be, read_bytes, read_string, remaining_bytes,
  is_eof,
}
use fitz_py.Protocol.Buffer.Progress.{
  Steady, left, Steady-pure, Steady-raise, Steady-if, Steady-weaken, Steady-bind, Steady-then,
  Steady-read_u8, Steady-u8, Steady-u32, Steady-bytes, Steady-string, bind_bounded,
}
use fitz_py.Domains.Link.{invalid_response}
use fitz_py.Domains.Schedule.{
  broadcast, single, ScheduleEntry, ScheduleCursorPage, read_flag, read_mode, read_entry,
  read_entries, read_continuation, read_page_entries, read_page_flags, read_page,
}

Steady-flag : Steady 1 read_flag
unfolding read_flag
Steady-flag = Steady-bind 1 0 read_u8 _ Steady-read_u8 (λ flag.
    Steady-if (ltb 1 flag) 0 _ _ (Steady-raise (invalid_response schedule) 0 (λ q. cc))
      (Steady-pure (flag == 1)))

Steady-mode : Steady 0 read_mode
unfolding read_mode
Steady-mode = Steady-weaken 0 1 read_mode (omega arith) (
    unfold read_mode in
    Steady-bind 1 0 read_flag _ Steady-flag (λ b. Steady-pure (if b then single else broadcast)))

Steady-entry : Steady 0 read_entry
unfolding read_entry
Steady-entry = Steady-then read_string _ Steady-string (λ route.
    Steady-then read_string _ Steady-string (λ cron. Steady-then read_mode _ Steady-mode (λ mode.
      Steady-then read_u32_be _ Steady-u32
        (λ size. Steady-then (read_bytes size) _ (Steady-bytes size) (λ payload. Steady-pure _)))))

Steady-continuation : (marker : Bool) → Steady 0 (read_continuation marker)
unfolding read_continuation
Steady-continuation true = Steady-then read_string _ Steady-string (λ text. Steady-pure (some text))
Steady-continuation false = Steady-pure none

if_ne :
    {A : Type 0} (b : Bool) (m n : Reader A) (r : BufferReader)
    → (m r).0 ≢ err diverged
    → (n r).0 ≢ err diverged
    → ((if b then m else n) r).0 ≢ err diverged
if_ne true m n r hm hn = hm
if_ne false m n r hm hn = hn

read_entries-ne-diverged :
    (fuel : ℕ) (r : BufferReader) → left r < fuel → (read_entries fuel r).0 ≢ err diverged
unfolding read_entries
read_entries-ne-diverged zero r h = absurd (omega arith)
read_entries-ne-diverged (suc fuel) r h =
    let again = read_entries-ne-diverged fuel in
    bind_bounded 1 read_flag _ r Steady-flag (λ more t l.
      if_ne more _ (pure []) t
        (bind_bounded 0 read_entry _ t Steady-entry
          (λ entry u k. after u (again u (omega arith)) entry))
        (λ q. cc))
  where
    after_result :
        (x : Result (List ScheduleEntry)) (u : BufferReader) (entry : ScheduleEntry)
        → x ≢ err diverged
        → (continue (λ entries. pure (entry ∷ entries)) (x, u)).0 ≢ err diverged
    after_result (ok es) u entry h = λ q. cc
    after_result (err e) u entry h = λ q. h (cc)

    after :
        (u : BufferReader)
        → (read_entries fuel u).0 ≢ err diverged
        → (entry : ScheduleEntry)
        → (continue (λ entries. pure (entry ∷ entries)) (read_entries fuel u)).0 ≢ err diverged
    after u h entry = after_result (read_entries fuel u).0 (read_entries fuel u).1 entry h

read_page_entries-ne-diverged :
    (has_more : Bool) (continuation : Option Str) (r : BufferReader)
    → (read_page_entries has_more continuation r).0 ≢ err diverged
unfolding read_page_entries remaining_bytes is_eof
read_page_entries-ne-diverged has_more continuation r =
    finish (read_entries (suc (left r)) r).0 (read_entries (suc (left r)) r).1
      (read_entries-ne-diverged (suc (left r)) r (omega arith))
  where
    finish :
        (x : Result (List ScheduleEntry)) (u : BufferReader)
        → x ≢ err diverged
        → (continue {B = ScheduleCursorPage}
            (λ entries. is_eof >>= λ eof.
              if eof
              then pure
                  (record { entries = entries; has_more = has_more; continuation = continuation })
              else raise (invalid_response schedule))
            (x, u)).0
          ≢ err diverged
    finish (ok es) u h =
        if_ne (leb (length u.buffer) u.offset)
          (pure (record { entries = es; has_more = has_more; continuation = continuation }))
          (raise (invalid_response schedule)) u (λ q. cc) (λ q. cc)
    finish (err e) u h = λ q. h (cc)

-- Reading a page ends on every input: the fuel is the bytes that are left and one more, and each
-- round takes one.
pub read_page-ne-diverged : (bs : Bytes) → (read_page (reader bs)).0 ≢ err diverged
unfolding read_page read_page_flags read_continuation
read_page-ne-diverged bs = bind_bounded 0 read_u8 _ (reader bs) Steady-u8 (λ version r k.
    if_ne (version == 1) read_page_flags (raise (invalid_response schedule)) r
      (bind_bounded 1 read_flag _ r Steady-flag (λ has_more t l.
        bind_bounded 1 read_flag _ t Steady-flag (λ marker u n.
          bind_bounded 0 (read_continuation marker) _ u (Steady-continuation marker)
            (λ c v p. read_page_entries-ne-diverged has_more c v))))
      (λ q. cc))
