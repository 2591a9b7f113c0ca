-- ===== src/Wire/Strings.antt =====
-- Short and long strings: what is written is read back.
use libamqp_cpp.Base.{
  ℕ, ◌-◌, ◌%◌, ◌^◌, ◌<◌, ◌≤◌, ◌≡◌, refl, List, ◌++◌, append_assoc, ok, err, logic_error, arith,
  length, lt→ltb, le→ltb,
}
use libamqp_cpp.Byteswap.Laws.{be_bytes}
use libamqp_cpp.Stream.{OStream, istream, write_or_throw}
use libamqp_cpp.Stream.Laws.{Writes, Writes-seq, write_or_throw-Writes, read_or_throw-append}
use libamqp_cpp.Wire.{
  write_shortstring, read_shortstring, write_longstring, read_longstring, write_uint8, write_uint32,
}
use libamqp_cpp.Wire.Chunks.{read_chunks-eq-read}
use libamqp_cpp.Wire.Integers.{
  write_uint8-Writes, write_uint32-Writes, read_uint8-be, read_uint32-be,
}

-- The wire forms, as the AMQP grammar gives them: the length, then the bytes.
abbrev pub shortstring_bytes : List ℕ → List ℕ
shortstring_bytes s = be_bytes 1 (length s) ++ s

abbrev pub longstring_bytes : List ℕ → List ℕ
longstring_bytes s = be_bytes 4 (length s) ++ s

pub write_shortstring-Writes :
    (s : List ℕ) → length s < 256 → Writes (write_shortstring s) (shortstring_bytes s)
unfolding Writes write_shortstring
write_shortstring-Writes s h l sent r =
    let len_eq : length s % 2 ^ 8 ≡ length s = omega arith in
    rw (le→ltb 255 (length s) (omega arith), len_eq)
      (Writes-seq (write_uint8 (length s)) (write_or_throw s "Write failure")
        (be_bytes 1 (length s)) s (write_uint8-Writes (length s))
        (write_or_throw-Writes s "Write failure") l sent r)

-- A short string of 256 bytes or more is refused before anything is written.
pub write_shortstring-too_long :
    (s : List ℕ) (o : OStream)
    → 256 ≤ length s
    → write_shortstring s o ≡ err (logic_error "AMQPP: short strings can only be 255 bytes long")
unfolding write_shortstring
write_shortstring-too_long s o h = rw (lt→ltb 255 (length s) h)

pub write_longstring-Writes :
    (s : List ℕ) → length s < 2 ^ 32 → Writes (write_longstring s) (longstring_bytes s)
unfolding Writes write_longstring
write_longstring-Writes s h l sent r =
    let len_eq : length s % 2 ^ 32 ≡ length s = omega arith in
    rw (le→ltb (2 ^ 32 - 1) (length s) (omega arith), len_eq)
      (Writes-seq (write_uint32 (length s)) (write_or_throw s "Write failure")
        (be_bytes 4 (length s)) s (write_uint32-Writes (length s))
        (write_or_throw-Writes s "Write failure") l sent r)

pub read_shortstring-append :
    (s rest : List ℕ)
    → length s < 256
    → read_shortstring (istream (shortstring_bytes s ++ rest)) ≡ ok (s, istream rest)
unfolding read_shortstring
read_shortstring-append s rest h =
    rw (append_assoc, read_uint8-be (length s) (s ++ rest) h)
      (read_or_throw-append s rest (length s) "Failure to read short string data" refl)

pub read_longstring-append :
    (s rest : List ℕ)
    → length s < 2 ^ 32
    → read_longstring (istream (longstring_bytes s ++ rest)) ≡ ok (s, istream rest)
unfolding read_longstring
read_longstring-append s rest h =
    rw
      (
        append_assoc,
        read_uint32-be (length s) (s ++ rest) h,
        read_chunks-eq-read (length s) (s ++ rest) h,
      )
      (read_or_throw-append s rest (length s) "Failure to read longstring data" refl)
