-- ===== src/Table/Join.antt =====
-- Entries inserted in the order of their keys end up in that order.
use libamqp_cpp.Base.{ℕ, ◌≡◌, refl, ap, List, true}
use libamqp_cpp.Table.{FieldValue, Table, no_entries, entry, insert_at}
use libamqp_cpp.Table.Keys.{key_lt, key_lt_asym}
use libamqp_cpp.Table.Map.{Above, IsSorted}

-- The entries of one table, then those of another.
abbrev pub join : Table → Table → Table
join no_entries t = t
join (entry k v u) t = entry k v (join u t)

pub join-nil : (u : Table) → join u no_entries ≡ u
join-nil no_entries = refl
join-nil (entry k v u) = ap (entry k v) (join-nil u)

pub join-entry :
    (u : Table) (k : List ℕ) (v : FieldValue) (t : Table)
    → join (join u (entry k v no_entries)) t ≡ join u (entry k v t)
join-entry no_entries k v t = refl
join-entry (entry j w u) k v t = ap (entry j w) (join-entry u k v t)

Above-join :
    (j : List ℕ) (u : Table) (k : List ℕ) (v : FieldValue) (t : Table)
    → Above j (join u (entry k v t))
    → key_lt j k ≡ true
Above-join j no_entries k v t a = a.0
Above-join j (entry i w u) k v t a = Above-join j u k v t a.1

-- An entry whose key comes after all of the table's goes to the end.
pub insert_at-last :
    (u : Table) (k : List ℕ) (v : FieldValue) (t : Table)
    → IsSorted (join u (entry k v t))
    → insert_at k v u ≡ join u (entry k v no_entries)
unfolding insert_at
insert_at-last no_entries k v t s = refl
insert_at-last (entry j w u) k v t s =
    let lt : key_lt j k ≡ true = Above-join j u k v t s.0 in
    rw (key_lt_asym j k lt, lt) (ap (entry j w) (insert_at-last u k v t s.1))
