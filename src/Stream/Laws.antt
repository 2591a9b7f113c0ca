-- ===== src/Stream/Laws.antt =====
-- Reading and writing on a stream in a good state.
use libamqp_cpp.Base.{
  ℕ, ◌+◌, ◌≤◌, ◌<◌, ◌≡◌, refl, true, false, Option, none, some, String, List, [], ◌∷◌, ◌++◌,
  append_assoc, append-nil, Result, ok, err, runtime_error, arith, length, length-append,
  take-append, drop-append, le→leb, ◌>>=◌, lt→leb,
}
use libamqp_cpp.Stream.{OStream, ostream, fits, istream, read_or_throw, write_or_throw, peek_eof}

-- What is written still fits.
abbrev pub Room : Option ℕ → ℕ → Type 0
Room none n = Unit {0}
Room (some room) n = n ≤ room

pub Room-le : (l : Option ℕ) (m n : ℕ) → m ≤ n → Room l n → Room l m
Room-le none m n h r = tt
Room-le (some room) m n h r = omega arith

Room→fits : (l : Option ℕ) (n : ℕ) → Room l n → fits l n ≡ true
Room→fits none n r = refl
Room→fits (some room) n r = le→leb n room r

-- What a writer does that appends `ys` to any stream with room for it, whatever else.
unfoldable pub Writes : (OStream → Result OStream) → List ℕ → Type 0
Writes w ys =
    (l : Option ℕ) (sent : List ℕ)
    → Room l (length sent + length ys)
    → w (ostream l sent) ≡ ok (ostream l (sent ++ ys))

pub write_or_throw-Writes : (ys : List ℕ) (message : String) → Writes (write_or_throw ys message) ys
unfolding Writes write_or_throw
write_or_throw-Writes ys message l sent r = rw (Room→fits l _ r)

-- Where there is no room, the message is thrown.
pub write_or_throw-no_room :
    (ys sent : List ℕ) (room : ℕ) (message : String)
    → room < length sent + length ys
    → write_or_throw ys message (ostream (some room) sent) ≡ err (runtime_error message)
unfolding write_or_throw
write_or_throw-no_room ys sent room message h = rw (lt→leb _ room h)

pub Writes-nil : Writes ok []
unfolding Writes
Writes-nil l sent r = rw append-nil

-- One writer after another.
pub Writes-seq :
    (v w : OStream → Result OStream) (xs ys : List ℕ)
    → Writes v xs
    → Writes w ys
    → Writes (λ o. v o >>= w) (xs ++ ys)
unfolding Writes
Writes-seq v w xs ys p q l sent r = rw (
  p l sent (Room-le l _ _ (omega (arith, length-append {0} xs ys)) r),
  q l (sent ++ xs)
      (Room-le l _ _ (omega (arith, length-append {0} xs ys, length-append {0} sent xs)) r),
  append_assoc,
)

pub read_or_throw-append :
    (xs ys : List ℕ) (n : ℕ) (message : String)
    → length xs ≡ n
    → read_or_throw n message (istream (xs ++ ys)) ≡ ok (xs, istream ys)
unfolding read_or_throw
read_or_throw-append xs ys n message e = rw (
  ← e,
  le→leb (length xs) (length (xs ++ ys)) (omega (arith, length-append {0} xs ys)),
  take-append xs ys,
  drop-append xs ys,
)

pub read_or_throw-short :
    (ys : List ℕ) (n : ℕ) (message : String)
    → length ys < n
    → read_or_throw n message (istream ys) ≡ err (runtime_error message)
unfolding read_or_throw
read_or_throw-short ys n message h = rw (lt→leb n (length ys) h)

pub peek_eof-nil : peek_eof (istream []) ≡ (true, record { rest = []; eof = true; fail = false })
unfolding peek_eof
peek_eof-nil = refl

pub peek_eof-cons : (b : ℕ) (ys : List ℕ) → peek_eof (istream (b ∷ ys)) ≡ (false, istream (b ∷ ys))
unfolding peek_eof
peek_eof-cons b ys = rw (le→leb 1 (length (b ∷ ys)) (omega arith))

pub peek_eof-nonempty : (ys : List ℕ) → 1 ≤ length ys → peek_eof (istream ys) ≡ (false, istream ys)
peek_eof-nonempty [] h = absurd (omega arith)
peek_eof-nonempty (y ∷ ys) h = peek_eof-cons y ys
