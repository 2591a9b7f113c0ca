-- ===== src/Table/Order.antt =====
-- A table does not tell the order in which its entries were inserted.
use mathlib.Core.List.{Permᴰ}
use libamqp_cpp.Base.{
  ℕ, ◌≡◌, ◌≢◌, refl, sym, ap, ◌∙◌, subst, inl, inr, true, Bool-cases, List, [], ◌∷◌, arith,
}
use libamqp_cpp.Table.{FieldValue, Table, no_entries, entry, TableEntry, insert_at, insert}
use libamqp_cpp.Table.Keys.{key_lt, key_lt_trans, key_lt_asym, key_lt-eq}

-- Two insertions, where the first key comes before the second.
insert_at-swap :
    (j k : List ℕ) (v w : FieldValue) (t : Table)
    → key_lt j k ≡ true
    → insert_at j v (insert_at k w t) ≡ insert_at k w (insert_at j v t)
unfolding insert_at
insert_at-swap j k v w no_entries h = let back = key_lt_asym j k h in ground arith
insert_at-swap j k v w (entry i x t) h =
    let back = key_lt_asym j k h in
    elim (Bool-cases (key_lt k i)) [
      | inl p ↦ let q = key_lt_trans j k i h p in ground arith
      | inr p ↦ elim (Bool-cases (key_lt i k)) [
        | inl q ↦ ground (arith, insert_at-swap j k v w t h)
        | inr q ↦ let same : i ≡ k = key_lt-eq i k q p in ground (arith, same)
      ]
    ]

pub insert-swap :
    (e f : TableEntry) (t : Table) → e.key ≢ f.key → insert e (insert f t) ≡ insert f (insert e t)
unfolding insert
insert-swap e f t h = elim (Bool-cases (key_lt e.key f.key)) [
  | inl p ↦ insert_at-swap e.key f.key e.value_of f.value_of t p
  | inr p ↦ elim (Bool-cases (key_lt f.key e.key)) [
    | inl q ↦ sym (insert_at-swap f.key e.key f.value_of e.value_of t q)
    | inr q ↦ absurd (h (key_lt-eq e.key f.key p q))
  ]
]

-- One insertion after the other.
unfoldable pub insert_all : List TableEntry → Table → Table
unfolding insert
insert_all [] t = t
insert_all (e ∷ rest) t = insert_all rest (insert e t)

abbrev pub IsApart : TableEntry → List TableEntry → Type 0
IsApart e [] = Unit {0}
IsApart e (f ∷ rest) = (e.key ≢ f.key) × IsApart e rest

-- No key stands twice.
abbrev pub AreDistinct : List TableEntry → Type 0
AreDistinct [] = Unit {0}
AreDistinct (e ∷ rest) = IsApart e rest × AreDistinct rest

IsApart-Perm :
    {es fs : List TableEntry} (e : TableEntry) → Permᴰ es fs → IsApart e es → IsApart e fs
IsApart-Perm e Permᴰ.nil h = tt
IsApart-Perm e (Permᴰ.cons q p) (h, hs) = (rw⁻¹ q h, IsApart-Perm e p hs)
IsApart-Perm e (Permᴰ.swap q r) (h, (k, hs)) = (rw⁻¹ r k, (rw⁻¹ q h, hs))
IsApart-Perm e (Permᴰ.trans p q) h = IsApart-Perm e q (IsApart-Perm e p h)

AreDistinct-Perm : {es fs : List TableEntry} → Permᴰ es fs → AreDistinct es → AreDistinct fs
AreDistinct-Perm Permᴰ.nil h = tt
AreDistinct-Perm (Permᴰ.cons {a} {b} {l₁} {l₂} q p) (h, hs) =
    (subst (λ e. IsApart e l₂) q (IsApart-Perm a p h), AreDistinct-Perm p hs)
AreDistinct-Perm (Permᴰ.swap {a} {b} {a'} {b'} {l} q r) ((n, h), (k, hs)) = (
  (
    (λ e. n (ap (λ x. TableEntry.key x) q ∙ sym e ∙ sym (ap (λ x. TableEntry.key x) r))),
    subst (λ e. IsApart e l) r k,
  ),
  (subst (λ e. IsApart e l) q h, hs),
)
AreDistinct-Perm (Permᴰ.trans p q) h = AreDistinct-Perm q (AreDistinct-Perm p h)

-- Entries whose keys are all different make the same table in whatever order they are inserted.
pub insert_all-Perm :
    {es fs : List TableEntry}
    → Permᴰ es fs
    → AreDistinct es
    → (t : Table) → insert_all es t ≡ insert_all fs t
unfolding insert_all
insert_all-Perm Permᴰ.nil h t = refl
insert_all-Perm (Permᴰ.cons {a} {b} {l₁} {l₂} q p) (h, hs) t =
    insert_all-Perm p hs (insert a t) ∙ ap (λ e. insert_all l₂ (insert e t)) q
insert_all-Perm (Permᴰ.swap {a} {b} {a'} {b'} {l} q r) ((n, h), hs) t =
    ap (insert_all l) (sym (insert-swap a b t n))
    ∙ ap (λ x. insert_all l (insert a (insert x t))) r
    ∙ ap (λ x. insert_all l (insert x (insert a' t))) q
insert_all-Perm (Permᴰ.trans p q) h t =
    insert_all-Perm p h t ∙ insert_all-Perm q (AreDistinct-Perm p h) t
