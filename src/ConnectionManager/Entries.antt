-- ===== src/ConnectionManager/Entries.antt =====
-- The entries of m_channels: by their places, and through close_channels.
use libamqp_cpp.Base.{
  ℕ, zero, suc, ◌<◌, ◌≤◌, arith, ◌≡◌, refl, sym, subst, ap, ◌∙◌, ◌⊎◌, inl, inr, List, [], ◌∷◌, ◌++◌,
  some, none, ok, >>=-eq-ok, ok-injective, length, get_elem?,
}
use libamqp_cpp.Channel.{close_async}
use libamqp_cpp.ConnectionManager.{
  World, Slot, expired, control, channel, ChannelObject, close_slots, close_channels,
}
use libamqp_cpp.ConnectionManager.Dispatch.{set_elem}

pub get_elem?-set_elem {ℓ} :
    {A : Type ℓ} (xs : List A) (n i : ℕ) (y x : A)
    → get_elem? (set_elem n y xs) i ≡ some x
    → ((i ≡ n) × (x ≡ y)) ⊎ (get_elem? xs i ≡ some x)
get_elem?-set_elem [] n i y x e = cc
get_elem?-set_elem (z ∷ zs) zero zero y x e = inl (refl, cc)
get_elem?-set_elem (z ∷ zs) zero (suc i) y x e = inr e
get_elem?-set_elem (z ∷ zs) (suc n) zero y x e = inr e
get_elem?-set_elem (z ∷ zs) (suc n) (suc i) y x e = elim (get_elem?-set_elem zs n i y x e) [
  | inl (p, q) ↦ inl (ap suc p, q)
  | inr h ↦ inr h
]

pub get_elem?-appended {ℓ} :
    {A : Type ℓ} (xs : List A) (i : ℕ) (y x : A)
    → get_elem? (xs ++ y ∷ []) i ≡ some x
    → ((i ≡ length xs) × (x ≡ y)) ⊎ (get_elem? xs i ≡ some x)
get_elem?-appended [] zero y x e = inl (refl, cc)
get_elem?-appended [] (suc i) y x e = cc
get_elem?-appended (z ∷ zs) zero y x e = inr e
get_elem?-appended (z ∷ zs) (suc i) y x e = elim (get_elem?-appended zs i y x e) [
  | inl (p, q) ↦ inl (ap suc p, q)
  | inr h ↦ inr h
]

pub get_elem?-set_first {ℓ} :
    {A : Type ℓ} (xs : List A) (n : ℕ) (y : A)
    → get_elem? (set_elem (suc n) y xs) 0 ≡ get_elem? xs 0
get_elem?-set_first [] n y = refl
get_elem?-set_first (x ∷ xs) n y = refl

pub get_elem?-append_first {ℓ} :
    {A : Type ℓ} (xs ys : List A) (x : A)
    → get_elem? xs 0 ≡ some x
    → get_elem? (xs ++ ys) 0 ≡ some x
get_elem?-append_first [] ys x e = cc
get_elem?-append_first (z ∷ zs) ys x e = e

pub get_elem?-last {ℓ} :
    {A : Type ℓ} (xs : List A) (x : A) → get_elem? (xs ++ x ∷ []) (length xs) ≡ some x
get_elem?-last [] x = refl
get_elem?-last (y ∷ ys) x = get_elem?-last ys x

pub get_elem?-nonempty {ℓ} :
    {A : Type ℓ} (xs : List A) (x : A) → get_elem? xs 0 ≡ some x → 0 < length xs
get_elem?-nonempty [] x e = cc
get_elem?-nonempty (z ∷ zs) x e = omega arith

pub get_elem?-lt {ℓ} :
    {A : Type ℓ} (xs : List A) (i : ℕ) (x : A) → get_elem? xs i ≡ some x → i < length xs
get_elem?-lt [] i x e = cc
get_elem?-lt (z ∷ zs) zero x e = omega arith
get_elem?-lt (z ∷ zs) (suc i) x e = omega (arith, get_elem?-lt zs i x e)

pub length-set_elem {ℓ} :
    {A : Type ℓ} (n : ℕ) (y : A) (xs : List A) → length (set_elem n y xs) ≡ length xs
length-set_elem n y [] = refl
length-set_elem zero y (x ∷ xs) = refl
length-set_elem (suc n) y (x ∷ xs) = ap suc (length-set_elem n y xs)

pub get_elem?-set_same {ℓ} :
    {A : Type ℓ} (xs : List A) (i : ℕ) (y x : A)
    → get_elem? xs i ≡ some x
    → get_elem? (set_elem i y xs) i ≡ some y
get_elem?-set_same [] i y x e = cc
get_elem?-set_same (z ∷ zs) zero y x e = refl
get_elem?-set_same (z ∷ zs) (suc i) y x e = get_elem?-set_same zs i y x e

pub get_elem?-beyond {ℓ} :
    {A : Type ℓ} (xs : List A) (i : ℕ) → length xs ≤ i → get_elem? xs i ≡ none
get_elem?-beyond [] i h = refl
get_elem?-beyond (x ∷ xs) zero h = absurd (omega arith)
get_elem?-beyond (x ∷ xs) (suc i) h = get_elem?-beyond xs i (omega arith)

module _ (w : World) where
  -- What close_channels does to an entry behind the first.
  pub data Closes : Slot w → Slot w → Type 0 where
    stays_expired : Closes expired expired
    channel_closes :
        (ch ch' : ChannelObject w)
        → close_async w.methods w.opens w.calls w.closes ch ≡ ok ch'
        → Closes (channel ch) (channel ch')

  -- The entries after the closing are those before it, each of them closed.
  abbrev pub CloseAll : List (Slot w) → List (Slot w) → Type 0
  CloseAll [] [] = Unit
  CloseAll [] (y ∷ ys) = ⊥
  CloseAll (x ∷ xs) [] = ⊥
  CloseAll (x ∷ xs) (y ∷ ys) = Closes x y × CloseAll xs ys

  pub close_slots-CloseAll : (xs ys : List (Slot w)) → close_slots w xs ≡ ok ys → CloseAll xs ys
  unfolding close_slots
  close_slots-CloseAll [] ys e = subst (λ zs. CloseAll [] zs) (ok-injective e) tt
  close_slots-CloseAll (expired ∷ rest) ys e =
      let (rest', p, q) = >>=-eq-ok (close_slots w rest) _ e in
      subst (λ zs. CloseAll (expired ∷ rest) zs) (ok-injective q)
        (stays_expired, close_slots-CloseAll rest rest' p)
  close_slots-CloseAll (control ∷ rest) ys e = cc
  close_slots-CloseAll (channel ch ∷ rest) ys e =
      let (ch', shut, e') = >>=-eq-ok (close_async w.methods w.opens w.calls w.closes ch) _ e in
      let (rest', p, q) = >>=-eq-ok (close_slots w rest) _ e' in
      subst (λ zs. CloseAll (channel ch ∷ rest) zs) (ok-injective q)
        (channel_closes ch ch' shut, close_slots-CloseAll rest rest' p)

  pub CloseAll-before :
      (xs ys : List (Slot w)) (n : ℕ) (y : Slot w)
      → CloseAll xs ys
      → get_elem? ys n ≡ some y
      → (x : Slot w) × (get_elem? xs n ≡ some x) × Closes x y
  CloseAll-before [] [] n y c e = cc
  CloseAll-before [] (z ∷ ys) n y c e = absurd c
  CloseAll-before (x ∷ xs) [] n y c e = absurd c
  CloseAll-before (x ∷ xs) (z ∷ ys) zero y (c, rest) e = (x, refl, subst (λ t. Closes x t) (cc) c)
  CloseAll-before (x ∷ xs) (z ∷ ys) (suc n) y (c, rest) e = CloseAll-before xs ys n y rest e

  -- The loop ends without an exception where each entry can be closed.
  pub close_slots-ok :
      (xs : List (Slot w))
      → ((n : ℕ) (x : Slot w) → get_elem? xs n ≡ some x → (y : Slot w) × Closes x y)
      → (ys : List (Slot w)) × (close_slots w xs ≡ ok ys)
  unfolding close_slots
  close_slots-ok [] h = ([], refl)
  close_slots-ok (x ∷ rest) h =
      let (rest', e) = close_slots-ok rest (λ n y. h (suc n) y) in
      let (y, c) = h 0 x refl in first c rest' e
    where
      first :
          {x y : Slot w}
          → Closes x y
          → (rest' : List (Slot w)) → close_slots w rest ≡ ok rest'
          → (ys : List (Slot w)) × (close_slots w (x ∷ rest) ≡ ok ys)
      first stays_expired rest' e = (expired ∷ rest', rw e)
      first (channel_closes ch ch' shut) rest' e = (channel ch' ∷ rest', rw (shut, e))

  -- The first entry is left out of the closing.
  pub close_channels-ok :
      (xs ys : List (Slot w)) (n : ℕ) (y : Slot w)
      → close_channels w xs ≡ ok ys
      → get_elem? ys n ≡ some y
      → ((n ≡ 0) × (get_elem? xs 0 ≡ some y))
        ⊎ ((x : Slot w) × (get_elem? xs n ≡ some x) × Closes x y)
  unfolding close_channels
  close_channels-ok [] ys n y e f = cc
  close_channels-ok (first ∷ rest) ys n y e f =
      let (rest', p, q) = >>=-eq-ok (close_slots w rest) _ e in
      by_place n rest' p (subst (λ zs. get_elem? zs n ≡ some y) (sym (ok-injective q)) f)
    where
      by_place :
          (n : ℕ) (rest' : List (Slot w))
          → close_slots w rest ≡ ok rest'
          → get_elem? (first ∷ rest') n ≡ some y
          → ((n ≡ 0) × (get_elem? (first ∷ rest) 0 ≡ some y))
            ⊎ ((x : Slot w) × (get_elem? (first ∷ rest) n ≡ some x) × Closes x y)
      by_place zero rest' p f = inl (refl, f)
      by_place (suc n) rest' p f =
          inr (CloseAll-before rest rest' n y (close_slots-CloseAll rest rest' p) f)

  pub close_channels-first :
      (xs ys : List (Slot w)) (y : Slot w)
      → close_channels w xs ≡ ok ys
      → get_elem? xs 0 ≡ some y
      → get_elem? ys 0 ≡ some y
  unfolding close_channels
  close_channels-first [] ys y e f = cc
  close_channels-first (first ∷ rest) ys y e f =
      let (rest', p, q) = >>=-eq-ok (close_slots w rest) _ e in
      subst (λ zs. get_elem? zs 0 ≡ some y) (ok-injective q) f

  CloseAll-length : (xs ys : List (Slot w)) → CloseAll xs ys → length ys ≡ length xs
  CloseAll-length [] [] c = refl
  CloseAll-length [] (y ∷ ys) c = absurd c
  CloseAll-length (x ∷ xs) [] c = absurd c
  CloseAll-length (x ∷ xs) (y ∷ ys) (c, rest) = ap suc (CloseAll-length xs ys rest)

  pub close_channels-length :
      (xs ys : List (Slot w)) → close_channels w xs ≡ ok ys → length ys ≡ length xs
  unfolding close_channels
  close_channels-length [] ys e = cc
  close_channels-length (first ∷ rest) ys e =
      let (rest', p, q) = >>=-eq-ok (close_slots w rest) _ e in
      ap length (sym (ok-injective q))
      ∙ ap suc (CloseAll-length rest rest' (close_slots-CloseAll rest rest' p))
