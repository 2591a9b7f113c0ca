-- ===== src/Byteswap/Laws.antt =====
-- byteswap.h against the bytes of a word in memory.
use libamqp_cpp.Base.{ℕ, zero, suc, ◌/◌, ◌%◌, ◌^◌, ◌<◌, ◌≡◌, refl, List, [], ◌∷◌, arith}
use libamqp_cpp.Byteswap.{le_bytes, of_le_bytes, byteswap16, byteswap32, byteswap64}

-- The bytes of a word of `w` bytes in network order, from the highest down.
unfoldable pub be_bytes : ℕ → ℕ → List ℕ
be_bytes zero v = []
be_bytes (suc w) v = (v / 256 ^ w % 256) ∷ be_bytes w v

cons₂ : {a b : ℕ} {xs ys : List ℕ} → a ≡ b → xs ≡ ys → a ∷ xs ≡ b ∷ ys
cons₂ p q = cc

pub le_bytes-byteswap16 : (v : ℕ) → le_bytes 2 (byteswap16 v) ≡ be_bytes 2 v
unfolding le_bytes be_bytes byteswap16
le_bytes-byteswap16 v = cons₂ (omega arith) (cons₂ (omega arith) refl)

pub le_bytes-byteswap32 : (v : ℕ) → le_bytes 4 (byteswap32 v) ≡ be_bytes 4 v
unfolding le_bytes be_bytes byteswap32
le_bytes-byteswap32 v =
    cons₂ (omega arith) (cons₂ (omega arith) (cons₂ (omega arith) (cons₂ (omega arith) refl)))

pub le_bytes-byteswap64 : (v : ℕ) → le_bytes 8 (byteswap64 v) ≡ be_bytes 8 v
unfolding le_bytes be_bytes byteswap64
le_bytes-byteswap64 v = cons₂ (omega arith) (
    cons₂ (omega arith) (
      cons₂ (omega arith) (
        cons₂ (omega arith) (
          cons₂ (omega arith)
            (cons₂ (omega arith) (cons₂ (omega arith) (cons₂ (omega arith) refl)))))))

pub byteswap16-of_be : (v : ℕ) → v < 2 ^ 16 → byteswap16 (of_le_bytes (be_bytes 2 v)) ≡ v
unfolding of_le_bytes be_bytes byteswap16
byteswap16-of_be v h = omega arith

pub byteswap32-of_be : (v : ℕ) → v < 2 ^ 32 → byteswap32 (of_le_bytes (be_bytes 4 v)) ≡ v
unfolding of_le_bytes be_bytes byteswap32
byteswap32-of_be v h = omega arith

pub byteswap64-of_be : (v : ℕ) → v < 2 ^ 64 → byteswap64 (of_le_bytes (be_bytes 8 v)) ≡ v
unfolding of_le_bytes be_bytes byteswap64
byteswap64-of_be v h = omega arith
