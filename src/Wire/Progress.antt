-- ===== src/Wire/Progress.antt =====
-- Reads on a stream in a good state: either an exception, or the bytes asked for, and a stream in
-- a good state before the rest.
use libamqp_cpp.Base.{
  ℕ, ◌+◌, ◌^◌, ◌≤◌, ◌<◌, ◌≡◌, refl, List, String, arith, leb, length, drop, length-take,
  length-drop, Bool-cases, leb→le, inl, inr, Ensures, holds, raised, Ensures-bind, Ensures-weaken,
}
use libamqp_cpp.Byteswap.{byteswap32, of_le_bytes}
use libamqp_cpp.Stream.{IStream, istream, read_or_throw}
use libamqp_cpp.Wire.{
  read_uint8, read_uint16, read_uint32, read_uint64, read_shortstring, read_longstring,
}
use libamqp_cpp.Wire.Chunks.{read_chunks-eq-read}

-- The stream `j` is good, and holds at least `k` bytes less than `bs`.
abbrev pub Leaves : ℕ → List ℕ → IStream → Type 0
Leaves k bs j = (rest : List ℕ) × (j ≡ istream rest) × (length rest + k ≤ length bs)

pub read_or_throw-Ensures :
    (n : ℕ) (message : String) (bs : List ℕ)
    → Ensures (λ (xs, j). (length xs ≡ n) × Leaves n bs j) (read_or_throw n message (istream bs))
unfolding read_or_throw
read_or_throw-Ensures n message bs = elim (Bool-cases (leb n (length bs))) [
  | inl h ↦ rw h (
      holds (
        length-take n bs (leb→le _ _ h),
        (drop n bs, refl, omega (arith, leb→le n (length bs) h, length-drop {0} n bs)),
      ))
  | inr h ↦ rw h raised
]

pub read_uint8-Ensures : (bs : List ℕ) → Ensures (λ (v, j). Leaves 1 bs j) (read_uint8 (istream bs))
unfolding read_uint8
read_uint8-Ensures bs =
    Ensures-bind (read_or_throw-Ensures 1 "Unable to read uint8" bs) λ (xs, j) h. holds h.1

pub read_uint16-Ensures :
    (bs : List ℕ) → Ensures (λ (v, j). Leaves 2 bs j) (read_uint16 (istream bs))
unfolding read_uint16
read_uint16-Ensures bs =
    Ensures-bind (read_or_throw-Ensures 2 "Unable to read uint16" bs) λ (xs, j) h. holds h.1

byteswap32-lt : (v : ℕ) → byteswap32 v < 2 ^ 32
unfolding byteswap32
byteswap32-lt v = omega arith

pub read_uint32-Ensures :
    (bs : List ℕ) → Ensures (λ (v, j). (v < 2 ^ 32) × Leaves 4 bs j) (read_uint32 (istream bs))
unfolding read_uint32
read_uint32-Ensures bs =
    Ensures-bind (read_or_throw-Ensures 4 "Unable to read uint32" bs)
      λ (xs, j) h. holds (byteswap32-lt (of_le_bytes xs), h.1)

pub read_uint64-Ensures :
    (bs : List ℕ) → Ensures (λ (v, j). Leaves 8 bs j) (read_uint64 (istream bs))
unfolding read_uint64
read_uint64-Ensures bs =
    Ensures-bind (read_or_throw-Ensures 8 "Unable to read uint64" bs) λ (xs, j) h. holds h.1

pub read_shortstring-Ensures :
    (bs : List ℕ) → Ensures (λ (s, j). Leaves (1 + length s) bs j) (read_shortstring (istream bs))
unfolding read_shortstring
read_shortstring-Ensures bs = Ensures-bind (read_uint8-Ensures bs) λ (n, j) (rest, e, h). rw e (
    Ensures-weaken (read_or_throw-Ensures n "Failure to read short string data" rest)
      λ (s, k) (l, (r, e', h')). (r, e', omega arith))

pub read_longstring-Ensures :
    (bs : List ℕ) → Ensures (λ (s, j). Leaves (4 + length s) bs j) (read_longstring (istream bs))
unfolding read_longstring
read_longstring-Ensures bs = Ensures-bind (read_uint32-Ensures bs) λ (n, j) (small, (rest, e, h)).
    rw (e, read_chunks-eq-read n rest small)
      (Ensures-weaken (read_or_throw-Ensures n "Failure to read longstring data" rest)
        λ (s, k) (l, (r, e', h')). (r, e', omega arith))
