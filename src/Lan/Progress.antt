-- ===== src/Lan/Progress.antt =====
-- The progress that local_ip_address_generator.cpp reports.
use dbus_fronius.Base.{
  ℕ, zero, suc, ◌+◌, ◌-◌, ◌*◌, ◌/◌, ◌≤◌, ◌<◌, ◌≡◌, Bool, true, ◌&&◌, List, [], ◌∷◌, ◌++◌, arith,
  length, All, ltb, ◌==◌, if◌then◌else◌, Bool-cases, inl, inr, if_both,
}
use dbus_fronius.Lan.{
  Subnet, has_address, is_skipped, increment, skip, next_address, new_subnet, size, position,
}
use dbus_fronius.Lan.Generator.{
  AddressEntry, Interface, Generator, exceptions, next_from, next, is_scanned, is_usable, first_of,
  last_of, entry_subnets, interface_subnets, reset, sizes, positions, progress,
}
use native.Mathlib.Nat.{div-le_of_le-mul}

-- The current address of a subnet stands in it or directly behind its end.
record IsWithin (s : Subnet) : Type 0 where
  pub ordered : s.first ≤ s.last
  pub small : s.last < 4294967295
  pub begun : s.first ≤ s.current
  pub bounded : s.current ≤ suc s.last

position-size : (s : Subnet) → IsWithin s → position s ≤ size s
position-size s v = omega (arith, v.ordered, v.small, v.begun, v.bounded)

increment-IsWithin : (s : Subnet) → IsWithin s → has_address s ≡ true → IsWithin (increment s)
increment-IsWithin s v e =
    let inside : s.current ≤ s.last = ground (arith, e) in
    record {
      ordered = v.ordered;
      small = v.small;
      begun = omega (arith, v.begun, v.small);
      bounded = omega (arith, v.small);
    }

both_tests : (a b : Bool) → (a && b) ≡ true → a ≡ true
both_tests a b e = ground arith

skip-IsWithin : (fuel : ℕ) (ex : List ℕ) (s : Subnet) → IsWithin s → IsWithin (skip fuel ex s)
unfolding skip
skip-IsWithin zero ex s v = v
skip-IsWithin (suc fuel) ex s v =
    elim (Bool-cases (has_address s && is_skipped ex s.localhost s.current)) [
      | inl e ↦ rw (e) (
          skip-IsWithin fuel ex (increment s)
            (increment-IsWithin s v (both_tests (has_address s) _ e)))
      | inr e ↦ rw (e) v
    ]

next_address-IsWithin :
    (ex : List ℕ) (s : Subnet) → IsWithin s → has_address s ≡ true → IsWithin (next_address ex s).1
unfolding next_address
next_address-IsWithin ex s v e =
    skip-IsWithin (suc s.last - s.current) ex (increment s) (increment-IsWithin s v e)

next_from-IsWithin :
    (ex : List ℕ) (index : ℕ) (ss : List Subnet)
    → All IsWithin ss
    → All IsWithin (next_from ex index ss).1
unfolding next_from
next_from-IsWithin ex index [] v = tt
next_from-IsWithin ex (suc index) (s ∷ ss) v = (v.0, next_from-IsWithin ex index ss v.1)
next_from-IsWithin ex zero (s ∷ ss) v = elim (Bool-cases (has_address s)) [
  | inl e ↦ rw (e) (next_address-IsWithin ex s v.0 e, v.1)
  | inr e ↦ rw (e) (v.0, next_from-IsWithin ex zero ss v.1)
]

-- What every call of `next` keeps.
record IsInside (g : Generator) : Type 0 where
  pub index_bounded : g.priority_index ≤ length g.priority_addresses
  pub all_within : All IsWithin g.subnets

next-IsInside : (g : Generator) → IsInside g → IsInside (next g).1
unfolding next
next-IsInside g v = elim (Bool-cases (ltb g.priority_index (length g.priority_addresses))) [
  | inl e ↦
      let less : g.priority_index < length g.priority_addresses = ground (arith, e) in
      rw (e) (record { index_bounded = omega (arith, less); all_within = v.all_within })
  | inr e ↦ rw (e) (record {
    index_bounded = v.index_bounded;
    all_within = next_from-IsWithin (exceptions g) g.subnet_index g.subnets v.all_within;
  })
]

-- The first address of the entry's subnet is not behind its last, as it is for a mask of 32 bits,
-- and the last is not 255.255.255.255.
abbrev pub IsNetwork : ℕ → AddressEntry → Type 0
IsNetwork limit e = (first_of limit e ≤ last_of limit e) × (last_of limit e < 4294967295)

new_subnet-IsWithin :
    (ex : List ℕ) (first last localhost : ℕ)
    → first ≤ last
    → last < 4294967295
    → IsWithin (new_subnet ex first last localhost)
unfolding new_subnet
new_subnet-IsWithin ex first last localhost o small =
    let raw : Subnet = record {
      first = first;
      current = first;
      last = last;
      localhost = localhost;
    } in
    next_address-IsWithin ex raw
      (record { ordered = o; small = small; begun = omega arith; bounded = omega (arith, o) })
      (ground (arith, o))

All-append : (ss ts : List Subnet) → All IsWithin ss → All IsWithin ts → All IsWithin (ss ++ ts)
All-append [] ts p q = q
All-append (s ∷ ss) ts p q = (p.0, All-append ss ts p.1 q)

entry_subnets-IsWithin :
    (ex : List ℕ) (limit : ℕ) (es : List AddressEntry)
    → All (IsNetwork limit) es
    → All IsWithin (entry_subnets ex limit es)
unfolding entry_subnets
entry_subnets-IsWithin ex limit [] b = tt
entry_subnets-IsWithin ex limit (e ∷ es) b =
    let rest = entry_subnets-IsWithin ex limit es b.1 in
    if_both (All IsWithin) (is_usable e)
      (new_subnet-IsWithin ex (first_of limit e) (last_of limit e) e.ip b.0.0 b.0.1, rest) rest

interface_subnets-IsWithin :
    (ex : List ℕ) (limit : ℕ) (is : List Interface)
    → All (λ i. All (IsNetwork limit) i.address_entries) is
    → All IsWithin (interface_subnets ex limit is)
unfolding interface_subnets
interface_subnets-IsWithin ex limit [] b = tt
interface_subnets-IsWithin ex limit (i ∷ is) b =
    let rest = interface_subnets-IsWithin ex limit is b.1 in
    if_both (All IsWithin) (is_scanned i)
      (All-append _ _ (entry_subnets-IsWithin ex limit i.address_entries b.0) rest) rest

reset-IsInside :
    (interfaces : List Interface) (g : Generator)
    → All (λ i. All (IsNetwork g.net_mask_limit) i.address_entries) interfaces
    → IsInside (reset interfaces g)
unfolding reset
reset-IsInside interfaces g b = record {
  index_bounded = omega arith;
  all_within =
      if_both (All IsWithin) g.priority_only tt
        (interface_subnets-IsWithin (exceptions g) g.net_mask_limit interfaces b);
}

positions-sizes : (ss : List Subnet) → All IsWithin ss → positions ss ≤ sizes ss
positions-sizes [] v = omega arith
positions-sizes (s ∷ ss) v = omega (arith, position-size s v.0, positions-sizes ss v.1)

share : (active done total : ℕ) → done ≤ total → 100 * (done - active) / total ≤ 100
share active done total h = div-le_of_le-mul total (omega (arith, h))

progress-le : (active : ℕ) (g : Generator) → IsInside g → progress active g ≤ 100
unfolding progress
progress-le active g v =
    let total = length g.priority_addresses + (if g.priority_only then 0 else sizes g.subnets) in
    let done = g.priority_index + (if g.priority_only then 0 else positions g.subnets) in
    let sums = positions-sizes g.subnets v.all_within in
    let within : done ≤ total = ground (arith, v.index_bounded, sums) in
    if_both (λ n. n ≤ 100) (total == 0) (omega arith) (share active done total within)

-- The generator after `k` calls of `next`.
unfoldable pub after : ℕ → Generator → Generator
after zero g = g
after (suc k) g = after k (next g).1

after-IsInside : (k : ℕ) (g : Generator) → IsInside g → IsInside (after k g)
unfolding after
after-IsInside zero g v = v
after-IsInside (suc k) g v = after-IsInside k (next g).1 (next-IsInside g v)

-- After a reset and any number of calls of `next`, also behind the end, the progress is at most 100
-- per cent, however many addresses are under investigation. It is required that the first address
-- of each entry's subnet is not behind its last and that no last one is 255.255.255.255.
pub progress-after :
    (k active : ℕ) (interfaces : List Interface) (g : Generator)
    → All (λ i. All (IsNetwork g.net_mask_limit) i.address_entries) interfaces
    → progress active (after k (reset interfaces g)) ≤ 100
progress-after k active interfaces g b =
    progress-le active _ (after-IsInside k (reset interfaces g) (reset-IsInside interfaces g b))
