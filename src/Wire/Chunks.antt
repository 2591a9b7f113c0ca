-- ===== src/Wire/Chunks.antt =====
-- The chunked loop of read_longstring is one read of the whole length.
use libamqp_cpp.Base.{
  ℕ, zero, suc, ◌+◌, ◌-◌, ◌*◌, ◌/◌, ◌%◌, ◌^◌, ◌<◌, ◌≤◌, ◌≡◌, refl, sym, ◌∙◌, ap, String, List, [],
  ◌∷◌, ◌++◌, append_assoc, append-nil, ◌>>=◌, ok, err, runtime_error, inl, inr, arith, ltb, length,
  take, drop, length-append, length-drop, length-take, take-append-drop, lt→ltb, le→ltb, Bool-cases,
  ltb→lt, ltb→le,
}
use libamqp_cpp.Stream.{IStream, istream, read_or_throw}
use libamqp_cpp.Stream.Laws.{read_or_throw-append, read_or_throw-short}
use libamqp_cpp.Wire.{read_chunks, buffer_length}

-- One round of the loop.
module _ (fuel len n : ℕ) (s : List ℕ) (i : IStream) (small : len < 2 ^ 32) where
  chunk_done : len ≤ n → read_chunks (suc fuel) len n s i ≡ ok (s, i)
  unfolding read_chunks
  chunk_done h = rw (le→ltb n len h)

  chunk_last :
      n < len
      → len ≤ n + buffer_length
      → read_chunks (suc fuel) len n s i ≡ (
          read_or_throw (len - n) "Failure to read longstring data" i >>= λ (chunk, j).
          read_chunks fuel len len (s ++ chunk) j)
  unfolding read_chunks
  chunk_last h k =
      let left_eq : (len + 2 ^ 32 - n) % 2 ^ 32 ≡ len - n = omega arith in
      let next_eq : (n + (len - n)) % 2 ^ 32 ≡ len = omega arith in
      rw (lt→ltb n len h, left_eq, le→ltb buffer_length (len - n) (omega arith), next_eq)

  chunk_full :
      n + buffer_length < len
      → read_chunks (suc fuel) len n s i ≡ (
          read_or_throw buffer_length "Failure to read longstring data" i >>= λ (chunk, j).
          read_chunks fuel len (n + buffer_length) (s ++ chunk) j)
  unfolding read_chunks
  chunk_full h =
      let left_eq : (len + 2 ^ 32 - n) % 2 ^ 32 ≡ len - n = omega arith in
      let next_eq : (n + buffer_length) % 2 ^ 32 ≡ n + buffer_length = omega arith in
      rw
        (lt→ltb n len (omega arith), left_eq, lt→ltb buffer_length (len - n) (omega arith), next_eq)

data Round (n len : ℕ) : Type 0 where
  done : len ≤ n → Round n len
  last : n < len → len ≤ n + buffer_length → Round n len
  full : n + buffer_length < len → Round n len

Round-cases : (n len : ℕ) → Round n len
Round-cases n len = elim (Bool-cases (ltb n len)) [
  | inl more ↦ elim (Bool-cases (ltb (n + buffer_length) len)) [
    | inl h ↦ full (ltb→lt _ _ h)
    | inr h ↦ last (ltb→lt _ _ more) (ltb→le _ _ h)
  ]
  | inr h ↦ done (ltb→le _ _ h)
]

length-nil : (xs : List ℕ) → length xs ≤ 0 → xs ≡ []
length-nil [] h = refl
length-nil (x ∷ xs) h = absurd (omega arith)

-- A prefix of the bytes is read off, and the rest is left.
read_prefix :
    (k : ℕ) (bs : List ℕ) (message : String)
    → k ≤ length bs
    → read_or_throw k message (istream bs) ≡ ok (take k bs, istream (drop k bs))
read_prefix k bs message h =
    rw (take-append-drop k bs) at
      (read_or_throw-append (take k bs) (drop k bs) k message (length-take k bs h))

drop-append_le : (k : ℕ) (xs ys : List ℕ) → k ≤ length xs → drop k (xs ++ ys) ≡ drop k xs ++ ys
drop-append_le zero xs ys h = refl
drop-append_le (suc k) [] ys h = absurd (omega arith)
drop-append_le (suc k) (x ∷ xs) ys h = drop-append_le k xs ys (omega arith)

take-append_le : (k : ℕ) (xs ys : List ℕ) → k ≤ length xs → take k (xs ++ ys) ≡ take k xs
take-append_le zero xs ys h = refl
take-append_le (suc k) [] ys h = absurd (omega arith)
take-append_le (suc k) (x ∷ xs) ys h = ap (◌∷◌ x) (take-append_le k xs ys (omega arith))

module _ (len : ℕ) (small : len < 2 ^ 32) where
  -- With the bytes there, the rounds together read them all.
  chunks_read :
      (fuel n : ℕ) (s xs rest : List ℕ)
      → n + length xs ≡ len
      → length xs + buffer_length ≤ buffer_length * fuel
      → read_chunks fuel len n s (istream (xs ++ rest)) ≡ ok (s ++ xs, istream rest)
  chunks_read zero n s xs rest e h = absurd (omega arith)
  chunks_read (suc fuel) n s xs rest e h = elim (Round-cases n len) [
    | done p ↦ rw (
      chunk_done fuel len n s (istream (xs ++ rest)) small p,
      length-nil xs (omega arith),
      append-nil,
    )
    | last p q ↦ last_round fuel p q (omega arith)
    | full p ↦ rw (
      chunk_full fuel len n s (istream (xs ++ rest)) small p,
      read_prefix buffer_length (xs ++ rest) "Failure to read longstring data"
          (omega (arith, length-append {0} xs rest)),
      take-append_le buffer_length xs rest (omega arith),
      drop-append_le buffer_length xs rest (omega arith),
      chunks_read fuel (n + buffer_length) (s ++ take buffer_length xs) (drop buffer_length xs) rest
          (omega (arith, length-drop {0} buffer_length xs))
          (omega (arith, length-drop {0} buffer_length xs)),
      append_assoc,
      take-append-drop,
    )
  ]
    where
      last_round :
          (f : ℕ)
          → n < len
          → len ≤ n + buffer_length
          → 1 ≤ f
          → read_chunks (suc f) len n s (istream (xs ++ rest)) ≡ ok (s ++ xs, istream rest)
      last_round zero p q k = absurd (omega arith)
      last_round (suc f) p q k = rw (
        chunk_last (suc f) len n s (istream (xs ++ rest)) small p q,
        read_or_throw-append xs rest (len - n) "Failure to read longstring data" (omega arith),
        chunk_done f len len (s ++ xs) (istream rest) small (omega arith),
      )

  -- With fewer bytes than announced, a round fails.
  chunks_short :
      (fuel n : ℕ) (s bs : List ℕ)
      → n + length bs < len
      → len + buffer_length ≤ n + buffer_length * fuel
      → read_chunks fuel len n s (istream bs)
        ≡ err (runtime_error "Failure to read longstring data")
  chunks_short zero n s bs e h = absurd (omega arith)
  chunks_short (suc fuel) n s bs e h = elim (Round-cases n len) [
    | done p ↦ absurd (omega arith)
    | last p q ↦ rw (
      chunk_last fuel len n s (istream bs) small p q,
      read_or_throw-short bs (len - n) "Failure to read longstring data" (omega arith),
    )
    | full p ↦ elim (Bool-cases (ltb (length bs) buffer_length)) [
      | inl few ↦ rw (
        chunk_full fuel len n s (istream bs) small p,
        read_or_throw-short bs buffer_length "Failure to read longstring data" (ltb→lt _ _ few),
      )
      | inr enough ↦
          rw
            (
              chunk_full fuel len n s (istream bs) small p,
              read_prefix buffer_length bs "Failure to read longstring data" (ltb→le _ _ enough),
            )
            (chunks_short fuel (n + buffer_length) (s ++ take buffer_length bs)
              (drop buffer_length bs)
              (omega (arith, length-drop {0} buffer_length bs, ltb→le _ _ enough)) (omega arith))
    ]
  ]

-- The loop of read_longstring on a good stream is one read of the announced 32-bit length: it takes
-- its bytes and leaves the rest, or throws; and it ends within the fuel that it is given.
pub read_chunks-eq-read :
    (len : ℕ) (bs : List ℕ)
    → len < 2 ^ 32
    → read_chunks (len / buffer_length + 2) len 0 [] (istream bs)
      ≡ read_or_throw len "Failure to read longstring data" (istream bs)
read_chunks-eq-read len bs h = elim (Bool-cases (ltb (length bs) len)) [
  | inl short ↦
      let few : length bs < len = ltb→lt (length bs) len short in
      chunks_short len h (len / buffer_length + 2) 0 [] bs (omega arith) (omega arith)
      ∙ sym (read_or_throw-short bs len "Failure to read longstring data" few)
  | inr enough ↦
      let k : len ≤ length bs = ltb→le (length bs) len enough in
      let size = length-take {0} len bs k in
      (rw (take-append-drop len bs) at (
        chunks_read len h (len / buffer_length + 2) 0 [] (take len bs) (drop len bs)
          (omega (arith, size)) (omega (arith, size))))
      ∙ sym (read_prefix len bs "Failure to read longstring data" k)
]
