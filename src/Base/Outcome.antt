-- ===== src/Base/Outcome.antt =====
-- How a call ends: a value, a C++ exception, undefined behaviour, or the end of the model's fuel.
-- The exception classes are those of exception.h and of the standard library.
use Prim.Native.Nat.{ℕ}
use Prim.Native.String.{String}
use mathlib.Core.Path.{◌≡◌, refl, subst}
use mathlib.Core.Logic.{◌≢◌}
use mathlib.Core.List.{List}

-- A thrown object, by its most derived class; the text is what() of the standard classes.
-- `std_exception` is an object of the base class std::exception itself.
pub data Exception : Type 0 where
  runtime_error : String → Exception
  logic_error : String → Exception
  std_exception : Exception
  connection_exception : Exception
  channel_exception : ℕ → List ℕ → ℕ → ℕ → Exception

-- `undefined` is the use of a null pointer, of a vector out of its bounds or of bytes that were
-- never stored, a failed assertion, and an exception that leaves a destructor. `out_of_fuel` has no
-- counterpart in the program.
pub data Result {ℓ} (A : Type ℓ) : Type ℓ where
  ok : A → Result A
  err : Exception → Result A
  undefined out_of_fuel : Result A

infixl 5 ◌>>=◌ ◌>>◌
abbrev pub ◌>>=◌ {ℓ κ} : {A : Type ℓ} {B : Type κ} → Result A → (A → Result B) → Result B
ok a >>= f = f a
err e >>= f = err e
undefined >>= f = undefined
out_of_fuel >>= f = out_of_fuel

abbrev pub ◌>>◌ {ℓ κ} : {A : Type ℓ} {B : Type κ} → Result A → Result B → Result B
m >> k = m >>= λ _. k

pub >>=_assoc {ℓ κ μ} :
    {A : Type ℓ} {B : Type κ} {C : Type μ} (m : Result A) (f : A → Result B) (g : B → Result C)
    → ((m >>= f) >>= g) ≡ (m >>= λ a. f a >>= g)
>>=_assoc (ok a) f g = refl
>>=_assoc (err e) f g = refl
>>=_assoc undefined f g = refl
>>=_assoc out_of_fuel f g = refl

-- Two chains whose parts behind the first agree.
pub >>=_cong {ℓ κ} :
    {A : Type ℓ} {B : Type κ} (m : Result A) {f g : A → Result B}
    → ((a : A) → f a ≡ g a)
    → (m >>= f) ≡ (m >>= g)
>>=_cong (ok a) h = h a
>>=_cong (err e) h = refl
>>=_cong undefined h = refl
>>=_cong out_of_fuel h = refl

-- The call ended by a value that satisfies `P` or by an exception.
pub data Ensures {ℓ κ} {A : Type ℓ} (P : A → Type κ) : Result A → Type (ℓ ⊔ κ) where
  holds : {a : A} → P a → Ensures P (ok a)
  raised : {e : Exception} → Ensures P (err e)

module _ {ℓ κ} {A : Type ℓ} {P : A → Type κ} where
  pub Ensures-bind {ℓ' κ'} :
      {B : Type ℓ'} {Q : B → Type κ'} {m : Result A} {f : A → Result B}
      → Ensures P m
      → ((a : A) → P a → Ensures Q (f a))
      → Ensures Q (m >>= f)
  Ensures-bind (holds {a} h) k = k a h
  Ensures-bind raised k = raised

  pub Ensures-weaken {κ'} :
      {Q : A → Type κ'} {m : Result A} → Ensures P m → ((a : A) → P a → Q a) → Ensures Q m
  Ensures-weaken (holds {a} h) k = holds (k a h)
  Ensures-weaken raised k = raised

  pub Ensures-ok : {m : Result A} {a : A} → Ensures P m → m ≡ ok a → P a
  Ensures-ok (holds h) e = subst P (cc) h
  Ensures-ok raised e = cc

  pub Ensures-ne-out_of_fuel : {m : Result A} → Ensures P m → m ≢ out_of_fuel
  Ensures-ne-out_of_fuel (holds h) = cc
  Ensures-ne-out_of_fuel raised = cc

  pub Ensures-ne-undefined : {m : Result A} → Ensures P m → m ≢ undefined
  Ensures-ne-undefined (holds h) = cc
  Ensures-ne-undefined raised = cc

-- A call that ensures what is false ends by an exception.
pub Ensures-never {ℓ κ} :
    {A : Type ℓ} {P : A → Type κ} {m : Result A}
    → Ensures P m
    → ((a : A) → ¬ P a)
    → (e : Exception) × (m ≡ err e)
Ensures-never (holds {a} h) k = absurd (k a h)
Ensures-never (raised {e}) k = (e, refl)

-- Any other call ensures at least that.
pub Ensures-any {ℓ} :
    {A : Type ℓ} (m : Result A) → m ≢ out_of_fuel → m ≢ undefined → Ensures (λ a. Unit {0}) m
Ensures-any (ok a) h k = holds tt
Ensures-any (err e) h k = raised
Ensures-any undefined h k = absurd (k refl)
Ensures-any out_of_fuel h k = absurd (h refl)

-- A chain that has a value: the value of its first part, and that of the chain from there on.
pub >>=-eq-ok {ℓ κ} :
    {A : Type ℓ} {B : Type κ} {last : B} (call : Result A) (rest : A → Result B)
    → (call >>= rest) ≡ ok last
    → (first : A) × (call ≡ ok first) × (rest first ≡ ok last)
>>=-eq-ok undefined rest e = cc
>>=-eq-ok out_of_fuel rest e = cc
>>=-eq-ok (err thrown) rest e = cc
>>=-eq-ok (ok first) rest e = (first, refl, e)

pub ok-injective {ℓ} : {A : Type ℓ} {a b : A} → Result.ok a ≡ ok b → a ≡ b
ok-injective h = cc
