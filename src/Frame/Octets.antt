-- ===== src/Frame/Octets.antt =====
-- Octets as the fields of a frame's header.
use libamqp_cpp.Base.{
  ℕ, zero, suc, ◌+◌, ◌*◌, ◌^◌, ◌<◌, ◌≡◌, refl, ap, List, [], ◌∷◌, ◌++◌, All, arith, length,
}
use libamqp_cpp.Byteswap.Laws.{be_bytes}

abbrev pub AreOctets : List ℕ → Type 0
AreOctets = All (λ x. x < 2 ^ 8)

pub AreOctets-left : (xs ys : List ℕ) → AreOctets (xs ++ ys) → AreOctets xs
AreOctets-left [] ys h = tt
AreOctets-left (x ∷ xs) ys (h, hs) = (h, AreOctets-left xs ys hs)

pub AreOctets-right : (xs ys : List ℕ) → AreOctets (xs ++ ys) → AreOctets ys
AreOctets-right [] ys h = h
AreOctets-right (x ∷ xs) ys (h, hs) = AreOctets-right xs ys hs

pub last_of :
    (n : ℕ) (xs : List ℕ)
    → length xs ≡ suc n
    → (init : List ℕ) × (y : ℕ) × (xs ≡ init ++ y ∷ []) × (length init ≡ n)
last_of n [] h = absurd (omega (arith, h))
last_of zero (x ∷ []) h = ([], x, refl, refl)
last_of zero (x ∷ y ∷ ys) h = absurd (omega (arith, h))
last_of (suc n) (x ∷ xs) h =
    let (init, y, e, l) = last_of n xs (omega (arith, h)) in
    (x ∷ init, y, ap (λ zs. x ∷ zs) e, omega (arith, l))

cons₂ : {a b : ℕ} {xs ys : List ℕ} → a ≡ b → xs ≡ ys → a ∷ xs ≡ b ∷ ys
cons₂ p q = cc

-- Seven octets are the header of a type, a channel and a size.
words :
    (o a b w x y z : ℕ) (rest : List ℕ)
    → o < 2 ^ 8
    → a < 2 ^ 8
    → b < 2 ^ 8
    → w < 2 ^ 8
    → x < 2 ^ 8
    → y < 2 ^ 8
    → z < 2 ^ 8
    → (ch : ℕ) × (n : ℕ) × (ch < 2 ^ 16)
      × (n < 2 ^ 32)
      × (o ∷ a ∷ b ∷ w ∷ x ∷ y ∷ z ∷ rest
          ≡ (be_bytes 1 o ++ (be_bytes 2 ch ++ be_bytes 4 n)) ++ rest)
unfolding be_bytes
words o a b w x y z rest ho ha hb hw hx hy hz = (
  a * 256 + b,
  w * 16777216 + x * 65536 + y * 256 + z,
  omega arith,
  omega arith,
  cons₂ (omega arith) (
      cons₂ (omega arith) (
        cons₂ (omega arith) (
          cons₂ (omega arith)
            (cons₂ (omega arith) (cons₂ (omega arith) (cons₂ (omega arith) refl)))))),
)

pub header_of :
    (bs : List ℕ)
    → length bs ≡ 8
    → AreOctets bs
    → (o : ℕ) × (rest : List ℕ) × (ch : ℕ) × (n : ℕ) × (l : ℕ) × (o < 2 ^ 8)
      × (ch < 2 ^ 16)
      × (n < 2 ^ 32)
      × (l < 2 ^ 8)
      × (bs ≡ o ∷ rest)
      × (bs ≡ (be_bytes 1 o ++ (be_bytes 2 ch ++ be_bytes 4 n)) ++ l ∷ [])
header_of (o ∷ a ∷ b ∷ w ∷ x ∷ y ∷ z ∷ l ∷ []) h
      (ho, (ha, (hb, (hw, (hx, (hy, (hz, (hl, end)))))))) =
    let (ch, n, c_lt, n_lt, e) = words o a b w x y z (l ∷ []) ho ha hb hw hx hy hz in
    (o, a ∷ b ∷ w ∷ x ∷ y ∷ z ∷ l ∷ [], ch, n, l, ho, c_lt, n_lt, hl, refl, e)
header_of _ h os = absurd (omega (arith, h))
