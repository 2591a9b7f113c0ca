-- ===== src/Wire/Integers.antt =====
-- The integers of wireformat.h against network byte order.
use libamqp_cpp.Base.{ℕ, ◌^◌, ◌<◌, ◌≡◌, refl, ap, List, ◌++◌, ok, [], ◌∷◌, none, length, arith}
use libamqp_cpp.Byteswap.{le_bytes, of_le_bytes}
use libamqp_cpp.Byteswap.Laws.{
  be_bytes, le_bytes-byteswap16, le_bytes-byteswap32, le_bytes-byteswap64, byteswap16-of_be,
  byteswap32-of_be, byteswap64-of_be,
}
use libamqp_cpp.Stream.{ostream, istream}
use libamqp_cpp.Stream.Laws.{Writes, write_or_throw-Writes, read_or_throw-append}
use libamqp_cpp.Wire.{
  write_uint8, read_uint8, write_uint16, read_uint16, write_uint32, read_uint32, write_uint64,
  read_uint64,
}

pub length-be_bytes : (w v : ℕ) → length (be_bytes w v) ≡ w
unfolding be_bytes
length-be_bytes ℕ.zero v = refl
length-be_bytes (ℕ.suc w) v = omega (arith, length-be_bytes w v)

le_bytes-one : (v : ℕ) → le_bytes 1 v ≡ be_bytes 1 v
unfolding le_bytes be_bytes
le_bytes-one v = ap (λ (b : ℕ). b ∷ []) (omega arith)

pub write_uint8-Writes : (v : ℕ) → Writes (write_uint8 v) (be_bytes 1 v)
unfolding Writes write_uint8
write_uint8-Writes v = rw le_bytes-one (write_or_throw-Writes (be_bytes 1 v) "Write failure")

pub write_uint16-Writes : (v : ℕ) → Writes (write_uint16 v) (be_bytes 2 v)
unfolding Writes write_uint16
write_uint16-Writes v =
    rw le_bytes-byteswap16 (write_or_throw-Writes (be_bytes 2 v) "Write failure")

pub write_uint32-Writes : (v : ℕ) → Writes (write_uint32 v) (be_bytes 4 v)
unfolding Writes write_uint32
write_uint32-Writes v =
    rw le_bytes-byteswap32 (write_or_throw-Writes (be_bytes 4 v) "Write failure")

pub write_uint64-Writes : (v : ℕ) → Writes (write_uint64 v) (be_bytes 8 v)
unfolding Writes write_uint64
write_uint64-Writes v =
    rw le_bytes-byteswap64 (write_or_throw-Writes (be_bytes 8 v) "Write failure")

of_be-one : (v : ℕ) → v < 2 ^ 8 → of_le_bytes (be_bytes 1 v) ≡ v
unfolding of_le_bytes be_bytes
of_be-one v h = omega arith

pub read_uint8-be :
    (v : ℕ) (rest : List ℕ)
    → v < 2 ^ 8
    → read_uint8 (istream (be_bytes 1 v ++ rest)) ≡ ok (v, istream rest)
unfolding read_uint8
read_uint8-be v rest h = rw (
  read_or_throw-append (be_bytes 1 v) rest 1 "Unable to read uint8" (length-be_bytes 1 v),
  of_be-one v h,
)

pub read_uint16-be :
    (v : ℕ) (rest : List ℕ)
    → v < 2 ^ 16
    → read_uint16 (istream (be_bytes 2 v ++ rest)) ≡ ok (v, istream rest)
unfolding read_uint16
read_uint16-be v rest h = rw (
  read_or_throw-append (be_bytes 2 v) rest 2 "Unable to read uint16" (length-be_bytes 2 v),
  byteswap16-of_be v h,
)

pub read_uint32-be :
    (v : ℕ) (rest : List ℕ)
    → v < 2 ^ 32
    → read_uint32 (istream (be_bytes 4 v ++ rest)) ≡ ok (v, istream rest)
unfolding read_uint32
read_uint32-be v rest h = rw (
  read_or_throw-append (be_bytes 4 v) rest 4 "Unable to read uint32" (length-be_bytes 4 v),
  byteswap32-of_be v h,
)

pub read_uint64-be :
    (v : ℕ) (rest : List ℕ)
    → v < 2 ^ 64
    → read_uint64 (istream (be_bytes 8 v ++ rest)) ≡ ok (v, istream rest)
unfolding read_uint64
read_uint64-be v rest h = rw (
  read_or_throw-append (be_bytes 8 v) rest 8 "Unable to read uint64" (length-be_bytes 8 v),
  byteswap64-of_be v h,
)

-- An unsigned integer in the range of its type is written to an unbounded stream as its bytes in
-- network order, and is read back from them; whatever follows is left.
read-write_integers :
    (v w x y : ℕ) (sent rest : List ℕ)
    → v < 2 ^ 8
    → w < 2 ^ 16
    → x < 2 ^ 32
    → y < 2 ^ 64
    → ((write_uint8 v (ostream none sent) ≡ ok (ostream none (sent ++ be_bytes 1 v)))
        × (read_uint8 (istream (be_bytes 1 v ++ rest)) ≡ ok (v, istream rest)))
      × ((write_uint16 w (ostream none sent) ≡ ok (ostream none (sent ++ be_bytes 2 w)))
          × (read_uint16 (istream (be_bytes 2 w ++ rest)) ≡ ok (w, istream rest)))
      × ((write_uint32 x (ostream none sent) ≡ ok (ostream none (sent ++ be_bytes 4 x)))
          × (read_uint32 (istream (be_bytes 4 x ++ rest)) ≡ ok (x, istream rest)))
      × ((write_uint64 y (ostream none sent) ≡ ok (ostream none (sent ++ be_bytes 8 y)))
          × (read_uint64 (istream (be_bytes 8 y ++ rest)) ≡ ok (y, istream rest)))
unfolding Writes
read-write_integers v w x y sent rest hv hw hx hy = (
  (write_uint8-Writes v none sent tt, read_uint8-be v rest hv),
  (write_uint16-Writes w none sent tt, read_uint16-be w rest hw),
  (write_uint32-Writes x none sent tt, read_uint32-be x rest hx),
  (write_uint64-Writes y none sent tt, read_uint64-be y rest hy),
)
