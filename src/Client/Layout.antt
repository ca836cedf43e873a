-- ===== src/Client/Layout.antt =====
-- The first answer's body: what the server lays out the client takes apart.
use secure_data_transmission.Base.{
  ◌>>=◌, ap₂, ℕ, ◌+◌, ◌-◌, ◌^◌, ◌≤◌, ◌<◌, ◌≡◌, ◌∙◌, refl, ap, sym, subst, some, none, [], ◌++◌,
  arith, append_assoc, length, length-append, replicate, drop, drop-length-append,
  take-length-append, Bytes,
}
use secure_data_transmission.Server.{le32}
use secure_data_transmission.Client.{un_le32, res_data, counted_text, parse_body}

un_le32-le32 : (n : ℕ) (rest : Bytes) → n < 2 ^ 32 → un_le32 (le32 n ++ rest) ≡ n
unfolding un_le32 le32
un_le32-le32 n rest h = omega arith

length-le32 : (n : ℕ) → length (le32 n) ≡ 4
unfolding le32
length-le32 n = refl

counted_text_lem :
    (before t after : Bytes)
    → length t < 2 ^ 32
    → counted_text (before ++ (le32 (length t) ++ (t ++ after))) (length before) ≡ some t
unfolding counted_text
counted_text_lem before t after h =
    let count = le32 (length t) in
    let whole = before ++ (count ++ (t ++ after)) in
    let at_count = drop-length-append before (count ++ (t ++ after)) in
    let at_text : drop (length before + 4) whole ≡ t ++ after =
      subst (λ k. drop k whole ≡ t ++ after)
        (length-append before count ∙ ap (λ k. length before + k) (length-le32 (length t)))
        (ap (drop (length (before ++ count))) (sym (append_assoc before count (t ++ after)))
          ∙ drop-length-append (before ++ count) (t ++ after)) in
    ground (
      arith,
      at_count,
      at_text,
      un_le32-le32 (length t) (t ++ after) h,
      length-append before (count ++ (t ++ after)),
      length-append count (t ++ after),
      length-append t after,
      length-le32 (length t),
      take-length-append t after,
    )

parse_body-steps :
    (body buf random key : Bytes)
    → res_data body ≡ some buf
    → counted_text buf 0 ≡ some random
    → counted_text buf (4 + length random) ≡ some key
    → parse_body body ≡ some (random, key)
unfolding parse_body
parse_body-steps body buf random key e₁ e₂ e₃ =
    ap
      (λ r. r >>= λ b. counted_text b 0 >>= λ x. counted_text b (4 + length x) >>= λ y. some (x, y))
      e₁
    ∙ ap (λ r. r >>= λ x. counted_text buf (4 + length x) >>= λ y. some (x, y)) e₂
    ∙ ap (λ r. r >>= λ y. some (random, y)) e₃

res_data-fits :
    (body : Bytes)
    → length body ≤ 2048
    → res_data body ≡ some (body ++ replicate (2048 - length body) 0)
unfolding res_data
res_data-fits body h = ground arith

-- Where the random text and the public key, each behind its length, make up 2048 bytes at most, the
-- client takes from the body exactly the two texts that the server put there.
pub parse_body-layout :
    (random key : Bytes)
    → length random + length key + 8 ≤ 2048
    → parse_body ((le32 (length random) ++ random) ++ (le32 (length key) ++ key))
      ≡ some (random, key)
parse_body-layout random key h =
    let first = le32 (length random) ++ random in
    let second = le32 (length key) ++ key in
    let zeros : Bytes = replicate (2048 - length (first ++ second)) 0 in
    let total : length (first ++ second) ≤ 2048 = omega (
      arith,
      length-append first second,
      length-append (le32 (length random)) random,
      length-append (le32 (length key)) key,
      length-le32 (length random),
      length-le32 (length key),
    ) in
    parse_body-steps (first ++ second) ((first ++ second) ++ zeros) random key
      (res_data-fits (first ++ second) total)
      (ap (λ b. counted_text b 0)
          (append_assoc first second zeros
            ∙ append_assoc (le32 (length random)) random (second ++ zeros))
        ∙ counted_text_lem [] random (second ++ zeros) (omega arith))
      (ap₂ counted_text
          (append_assoc first second zeros
            ∙ ap (λ b. first ++ b) (append_assoc (le32 (length key)) key zeros))
          (ap (λ k. k + length random) (sym (length-le32 (length random)))
            ∙ sym (length-append (le32 (length random)) random))
        ∙ counted_text_lem first key zeros (omega arith))

-- A longer body overruns the client's buffer of 2048 bytes.
pub parse_body-overrun : (body : Bytes) → 2048 < length body → parse_body body ≡ none
unfolding parse_body
parse_body-overrun body h = ground arith
