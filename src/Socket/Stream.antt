-- ===== src/Socket/Stream.antt =====
-- What `readn` makes of a stream, however its bytes arrive.
use secure_data_transmission.Base.{
  ℕ, zero, suc, ap₂, sym, subst, ◌∙◌, dec_le, length-drop, ◌-◌, ◌≤◌, ◌<◌, ◌≡◌, refl, ap, List, [],
  ◌∷◌, ◌++◌, arith, append_assoc, append-nil, length, take, drop, length-append, pos, Bytes,
  take-append_ge, take-append_le, drop-append_ge, drop-append_le,
}
use secure_data_transmission.Socket.{Event, arrived, failed, eintr, eagain, other, Read, readn_loop}

-- The bytes that a stream delivers.
abbrev pub bytes : List Event → Bytes
bytes [] = []
bytes (arrived bs ∷ es) = bs ++ bytes es
bytes (failed e ∷ es) = bytes es

-- Nothing but bytes and interrupted calls: no failure, no end of the connection.
abbrev pub IsSmooth : List Event → Type 0
IsSmooth [] = Unit {0}
IsSmooth (arrived bs ∷ es) = (0 < length bs) × IsSmooth es
IsSmooth (failed eintr ∷ es) = IsSmooth es
IsSmooth (failed eagain ∷ es) = ⊥
IsSmooth (failed other ∷ es) = ⊥

-- A read that got all its bytes `b`, out of a smooth stream with `tail` behind it.
pub record Got (count : ℕ) (b left : Bytes) (tail : List Event) (r : Read) : Type 0 where
  pub code : r.ret ≡ pos count
  pub filled : r.buf ≡ b
  pub stream : List Event
  pub smooth : IsSmooth stream
  pub remains : bytes stream ≡ left
  pub rest_eq : r.rest ≡ stream ++ tail

abbrev GotAll : ℕ → ℕ → Bytes → List Event → List Event → Type 0
GotAll count nleft acc es tail =
    Got count (acc ++ take nleft (bytes es)) (drop nleft (bytes es)) tail
      (readn_loop count nleft acc (es ++ tail))

got_none :
    (count : ℕ) (acc : Bytes) (es tail : List Event) → IsSmooth es → GotAll count 0 acc es tail
unfolding readn_loop
got_none count acc es tail s = record {
  code = at es tail;
  filled = filled_at es tail;
  stream = es;
  smooth = s;
  remains = refl;
  rest_eq = rest_at es tail;
}
  where
    done :
        (fs : List Event)
        → readn_loop count 0 acc fs ≡ record { ret = pos count; buf = acc; rest = fs }
    done [] = refl
    done (arrived bs ∷ fs) = refl
    done (failed e ∷ fs) = refl

    at : (xs ys : List Event) → (readn_loop count 0 acc (xs ++ ys)).ret ≡ pos count
    at xs ys = ap (λ r. r.ret) (done (xs ++ ys))

    filled_at : (xs ys : List Event) → (readn_loop count 0 acc (xs ++ ys)).buf ≡ acc ++ []
    filled_at xs ys = ap (λ r. r.buf) (done (xs ++ ys)) ∙ sym (append-nil acc)

    rest_at : (xs ys : List Event) → (readn_loop count 0 acc (xs ++ ys)).rest ≡ xs ++ ys
    rest_at xs ys = ap (λ r. r.rest) (done (xs ++ ys))

-- An interrupted call is made again.
readn_loop-eintr :
    (count n : ℕ) (acc : Bytes) (es : List Event)
    → readn_loop count (suc n) acc (failed eintr ∷ es) ≡ readn_loop count (suc n) acc es
unfolding readn_loop
readn_loop-eintr count n acc es = ground arith

pub readn_loop-Got :
    (count nleft : ℕ) (acc : Bytes) (es tail : List Event)
    → IsSmooth es
    → nleft ≤ length (bytes es)
    → GotAll count nleft acc es tail
unfolding readn_loop
readn_loop-Got count zero acc es tail s h = got_none count acc es tail s
readn_loop-Got count (suc n) acc [] tail s h = absurd (omega arith)
readn_loop-Got count (suc n) acc (failed eintr ∷ es) tail s h =
    subst (Got count (acc ++ take (suc n) (bytes es)) (drop (suc n) (bytes es)) tail)
      (sym (readn_loop-eintr count n acc (es ++ tail)))
      (readn_loop-Got count (suc n) acc es tail s h)
readn_loop-Got count nleft acc (failed eagain ∷ es) tail s h = absurd s
readn_loop-Got count nleft acc (failed other ∷ es) tail s h = absurd s
readn_loop-Got count (suc n) acc (arrived bs ∷ es) tail s h = elim (dec_le (length bs) (suc n)) [
  | yes p ↦
      let g =
        readn_loop-Got count (suc n - length bs) (acc ++ bs) es tail s.1
          (omega (arith, length-append bs (bytes es))) in
      record {
        code = ground (arith, g);
        filled = ground (
          arith,
          g,
          take-append_ge (suc n) bs (bytes es) p,
          append_assoc acc bs (take (suc n - length bs) (bytes es)),
        );
        stream = g.stream;
        smooth = g.smooth;
        remains = ground (arith, g, drop-append_ge (suc n) bs (bytes es) p);
        rest_eq = ground (arith, g);
      }
  | no p ↦ record {
    code = ground arith;
    filled = ground (arith, take-append_le (suc n) bs (bytes es));
    stream = arrived (drop (suc n) bs) ∷ es;
    smooth = ground (arith, length-drop (suc n) bs);
    remains = ground (arith, drop-append_le (suc n) bs (bytes es));
    rest_eq = ground arith;
  }
]

-- A stream that ends too early is read as if its bytes were in the buffer already.
pub readn_loop-skip :
    (count nleft : ℕ) (acc : Bytes) (es tail : List Event)
    → IsSmooth es
    → length (bytes es) < nleft
    → readn_loop count nleft acc (es ++ tail)
      ≡ readn_loop count (nleft - length (bytes es)) (acc ++ bytes es) tail
unfolding readn_loop
readn_loop-skip count nleft acc [] tail s h =
    ap₂ (λ n b. readn_loop count n b tail) (omega arith) (sym (append-nil acc))
readn_loop-skip count nleft acc (failed eintr ∷ es) tail s h =
    ground (arith, readn_loop-skip count nleft acc es tail s)
readn_loop-skip count nleft acc (failed eagain ∷ es) tail s h = absurd s
readn_loop-skip count nleft acc (failed other ∷ es) tail s h = absurd s
readn_loop-skip count nleft acc (arrived bs ∷ es) tail s h = ground (
  arith,
  readn_loop-skip count (nleft - length bs) (acc ++ bs) es tail s.1,
  append_assoc acc bs (bytes es),
  length-append bs (bytes es),
)
