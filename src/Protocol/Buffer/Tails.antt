-- ===== src/Protocol/Buffer/Tails.antt =====
-- Readers that depend on what follows, at the end of a payload.
use fitz_py.Prelude.{
  ℕ, ◌-◌, ◌<◌, ◌≡◌, refl, ap, ◌∙◌, Bool, true, false, ◌++◌, [], ◌∷◌, arith, length, length-append,
  le→leb, leb,
}
use fitz_py.Prelude.Bytes.{Bytes}
use fitz_py.Errors.{ok}
use fitz_py.Exec.{◌>>=◌}
use fitz_py.Protocol.Buffer.{BufferReader, Reader, is_eof, remaining_bytes}
use fitz_py.Protocol.Buffer.Reads.{
  Ahead, Reads, ReadsAll, skip, length-Ahead, Ahead-split, Ahead-skip,
}

-- With exactly `xs` ahead `m` returns `a` and is at the end.
pub record ReadsTail {A : Type 0} (m : Reader A) (a : A) (xs : Bytes) : Type 0 where
  pub at : (r : BufferReader) → Ahead r xs [] → m r ≡ (ok a, skip (length xs) r)

module _ {A : Type 0} {a : A} where
  pub Reads-Tail : {m : Reader A} {xs : Bytes} → Reads m a xs → ReadsTail m a xs
  Reads-Tail h = record { at = λ r k. h.at r [] k }

  pub ReadsTail-is_eof :
      (f : Bool → Reader A) → ReadsTail (f true) a [] → ReadsTail (is_eof >>= f) a []
  unfolding is_eof
  ReadsTail-is_eof f h = record {
    at = λ r k.
        let all = length-Ahead r [] [] k in
        rw (le→leb (length r.buffer) r.offset (omega arith)) (h.at r k);
  }

  pub ReadsTail-more :
      (f : Bool → Reader A) (x : ℕ) (xs : Bytes)
      → ReadsTail (f false) a (x ∷ xs)
      → ReadsTail (is_eof >>= f) a (x ∷ xs)
  unfolding is_eof
  ReadsTail-more f x xs h = record {
    at = λ r k.
        let all : r.offset < length r.buffer = omega (arith, length-Ahead r (x ∷ xs) [] k) in
        let e : leb (length r.buffer) r.offset ≡ false = ground (arith, all) in rw e (h.at r k);
  }

  pub ReadsTail-remaining_bytes :
      {xs : Bytes} (f : ℕ → Reader A)
      → ReadsTail (f (length xs)) a xs
      → ReadsTail (remaining_bytes >>= f) a xs
  unfolding remaining_bytes
  ReadsTail-remaining_bytes {xs} f h = record {
    at = λ r k.
        let e : length r.buffer - r.offset ≡ length xs = omega (arith, length-Ahead r xs [] k) in
        rw e (h.at r k);
  }

module _ {A B : Type 0} {m : Reader A} {a : A} {b : B} (f : A → Reader B) where
  pub ReadsTail-bind :
      {xs ys : Bytes} → Reads m a xs → ReadsTail (f a) b ys → ReadsTail (m >>= f) b (xs ++ ys)
  ReadsTail-bind {xs} {ys} hm hf = record {
    at = λ r h.
        let (first, second) = Ahead-split r xs ys [] h in
        rw (hm.at r (ys ++ []) first) (
          hf.at (skip (length xs) r) second
          ∙ ap (λ (n : ℕ). (ok b, record r { offset = n })) (omega (arith, length-append xs ys)));
  }

  pub ReadsTail-bind_last :
      {xs : Bytes} → ReadsTail m a xs → ReadsTail (f a) b [] → ReadsTail (m >>= f) b xs
  ReadsTail-bind_last {xs} hm hf = record {
    at = λ r h. rw (hm.at r h) (
        hf.at (skip (length xs) r) (Ahead-skip r xs [] h)
        ∙ ap (λ (n : ℕ). (ok b, record r { offset = n })) (omega arith));
  }

  pub ReadsAll-bind_tail :
      {xs : Bytes} → ReadsTail m a xs → ReadsAll (f a) b [] → ReadsAll (m >>= f) b xs
  ReadsAll-bind_tail {xs} hm hf = record {
    at = λ r h. rw (hm.at r h) (hf.at (skip (length xs) r) (Ahead-skip r xs [] h));
  }

pub ReadsAll-eof : ReadsAll is_eof true []
unfolding is_eof
ReadsAll-eof = record {
  at = λ r k.
      let all = length-Ahead r [] [] k in rw (le→leb (length r.buffer) r.offset (omega arith)) refl;
}
