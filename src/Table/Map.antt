-- ===== src/Table/Map.antt =====
-- table::insert against the contract of a map: one entry to a key, in order, the first one kept.
use libamqp_cpp.Base.{
  ℕ, ◌≡◌, refl, inl, inr, true, List, Option, none, some, if◌then◌else◌, arith, Bool-cases,
}
use libamqp_cpp.Table.{FieldValue, Table, no_entries, entry, TableEntry, insert_at, insert}
use libamqp_cpp.Table.Keys.{key_lt, key_lt_trans, key_lt-eq}

-- `k` comes before each key of the table.
abbrev pub Above : List ℕ → Table → Type 0
Above k no_entries = Unit {0}
Above k (entry j w t) = (key_lt k j ≡ true) × Above k t

-- Strictly increasing keys.
abbrev pub IsSorted : Table → Type 0
IsSorted no_entries = Unit {0}
IsSorted (entry j w t) = Above j t × IsSorted t

-- The value under a key.
unfoldable pub lookup : List ℕ → Table → Option FieldValue
lookup k no_entries = none
lookup k (entry j w t) =
    if key_lt k j then lookup k t else (if key_lt j k then lookup k t else some w)

unfoldable pub first_of_two : Option FieldValue → FieldValue → FieldValue
first_of_two none v = v
first_of_two (some w) v = w

pub Above-trans : (j k : List ℕ) (t : Table) → key_lt j k ≡ true → Above k t → Above j t
Above-trans j k no_entries h a = tt
Above-trans j k (entry i w t) h a = (key_lt_trans j k i h a.0, Above-trans j k t h a.1)

insert_at-Above :
    (j k : List ℕ) (v : FieldValue) (t : Table)
    → key_lt j k ≡ true
    → Above j t
    → Above j (insert_at k v t)
unfolding insert_at
insert_at-Above j k v no_entries h a = (h, tt)
insert_at-Above j k v (entry i w t) h a = elim (Bool-cases (key_lt k i)) [
  | inl p ↦ rw p (h, a)
  | inr p ↦ elim (Bool-cases (key_lt i k)) [
    | inl q ↦ rw (p, q) (a.0, insert_at-Above j k v t h a.1)
    | inr q ↦ rw (p, q) a
  ]
]

insert_at-IsSorted :
    (k : List ℕ) (v : FieldValue) (t : Table) → IsSorted t → IsSorted (insert_at k v t)
unfolding insert_at
insert_at-IsSorted k v no_entries s = (tt, tt)
insert_at-IsSorted k v (entry i w t) s = elim (Bool-cases (key_lt k i)) [
  | inl p ↦ rw p ((p, Above-trans k i t p s.0), s)
  | inr p ↦ elim (Bool-cases (key_lt i k)) [
    | inl q ↦ rw (p, q) (insert_at-Above i k v t q s.0, insert_at-IsSorted k v t s.1)
    | inr q ↦ rw (p, q) s
  ]
]

-- A key before all of the table's is not in it.
pub lookup-Above : (k : List ℕ) (t : Table) → Above k t → lookup k t ≡ none
unfolding lookup
lookup-Above k no_entries a = refl
lookup-Above k (entry j w t) a = rw a.0 (lookup-Above k t a.1)

lookup-insert_at :
    (i k : List ℕ) (v : FieldValue) (t : Table)
    → IsSorted t
    → lookup i (insert_at k v t) ≡ (
        if key_lt i k
        then lookup i t
        else (if key_lt k i then lookup i t else some (first_of_two (lookup k t) v)))
unfolding lookup insert_at first_of_two
lookup-insert_at i k v no_entries s = ground arith
lookup-insert_at i k v (entry j w t) s = elim (Bool-cases (key_lt k j)) [
  | inl p ↦
      let absent : lookup k t ≡ none = lookup-Above k t (Above-trans k j t p s.0) in ground arith
  | inr p ↦ elim (Bool-cases (key_lt j k)) [
    | inl q ↦ ground (arith, lookup-insert_at i k v t s.1, key_lt-eq i j, key_lt-eq i k)
    | inr q ↦ let same : j ≡ k = key_lt-eq j k q p in ground (arith, same, key_lt-eq i k)
  ]
]

-- In a table with strictly increasing keys, inserting keeps them so, and no key stands twice.
-- Afterwards the entry's key has the value that it had before, or the entry's value if it had none,
-- and every other key has what it had.
pub insert_lem :
    (e : TableEntry) (t : Table) (i : List ℕ)
    → IsSorted t
    → IsSorted (insert e t)
      × (lookup i (insert e t) ≡ (
          if key_lt i e.key
          then lookup i t
          else (if key_lt e.key i
              then lookup i t
              else some (first_of_two (lookup e.key t) e.value_of))))
unfolding insert
insert_lem e t i s =
    (insert_at-IsSorted e.key e.value_of t s, lookup-insert_at i e.key e.value_of t s)
