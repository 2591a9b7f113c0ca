-- ===== src/Stream.antt =====
-- The std::ostream and std::istream that the wire format is written to and read from, as far as
-- the source uses them: write, read, peek, good and eof, over bytes in memory.
-- A bounded output is the array_sink of frame.cpp and frame_writer.cpp; an unbounded one is an
-- ostringstream. What a failed write leaves in the buffer is not modelled: the source never
-- looks at a stream after a failure.
pub mod Laws
use libamqp_cpp.Base.{
  ℕ, ◌+◌, ◌≤◌, Bool, true, false, not, ◌&&◌, ◌||◌, Option, none, some, String, List, [], ◌∷◌, ◌++◌,
  Result, ok, err, Exception, runtime_error, leb, if◌then◌else◌, length, take, drop,
}

pub record OStream : Type 0 where
  pub sent : List ℕ
  pub limit : Option ℕ
  pub bad : Bool

-- A stream open for writing, at what it has written.
abbrev pub ostream : Option ℕ → List ℕ → OStream
ostream l bs = record { sent = bs; limit = l; bad = false }

abbrev pub fits : Option ℕ → ℕ → Bool
fits none n = true
fits (some room) n = leb n room

-- o.write(data, n)
unfoldable pub write : List ℕ → OStream → OStream
write bs o =
    if not o.bad && fits o.limit (length o.sent + length bs)
    then record o { sent = o.sent ++ bs }
    else record o { bad = true }

-- if (!o.good()) throw std::runtime_error(message)
unfoldable pub check_written : String → OStream → Result OStream
check_written message o = if o.bad then err (runtime_error message) else ok o

pub record IStream : Type 0 where
  pub rest : List ℕ
  pub eof : Bool
  pub fail : Bool

-- A stream in a good state, before the bytes that it still holds.
abbrev pub istream : List ℕ → IStream
istream bs = record { rest = bs; eof = false; fail = false }

abbrev pub good : IStream → Bool
good i = not (i.eof || i.fail)

-- i.read(buffer, n): the eof flag is set by a read past the end only, not by one up to the end.
unfoldable pub read : ℕ → IStream → List ℕ × IStream
read n i =
    if good i
    then (if leb n (length i.rest)
        then (take n i.rest, record i { rest = drop n i.rest })
        else (i.rest, record { rest = []; eof = true; fail = true }))
    else ([], record i { fail = true })

-- i.peek(): whether it answers eof(), and the stream after it.
unfoldable pub peek_eof : IStream → Bool × IStream
peek_eof i =
    if good i
    then (if leb 1 (length i.rest) then (false, i) else (true, record i { eof = true }))
    else (true, record i { fail = true })

-- i.read(buffer, n); if (!i.good()) throw std::runtime_error(message)
unfoldable pub read_or_throw : ℕ → String → IStream → Result (List ℕ × IStream)
unfolding read
read_or_throw n message i =
    let (bytes, j) = read n i in if good j then ok (bytes, j) else err (runtime_error message)

-- A write and the check that follows it.
unfoldable pub write_or_throw : List ℕ → String → OStream → Result OStream
unfolding write check_written
write_or_throw bytes message o = check_written message (write bytes o)
