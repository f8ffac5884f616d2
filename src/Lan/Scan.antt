-- ===== src/Lan/Scan.antt =====
-- What the address generator of local_ip_address_generator.cpp returns from a reset to its end.
use dbus_fronius.Base.{
  ℕ, suc, ◌+◌, ◌-◌, ◌%◌, ◌≤◌, ◌<◌, ◌≡◌, refl, sym, ap, ap₂, ◌∙◌, inl, inr, List, [], ◌∷◌, ◌++◌,
  append_assoc, arith, length, All, if◌then◌else◌, Bool-cases,
}
use dbus_fronius.Lan.{Subnet, increment, next_address, new_subnet, two_32}
use dbus_fronius.Lan.Generator.{
  AddressEntry, Interface, Generator, is_scanned, is_usable, first_of, last_of, entry_subnets,
  interface_subnets, reset,
}
use dbus_fronius.Lan.Subnets.{candidates, left, IsSettled, skip-IsSkipped}
use dbus_fronius.Lan.Enumerate.{left_from, drain, drain-remaining}

-- The addresses that an entry stands for: those behind the first of its subnet, up to the last.
abbrev pub hosts : List ℕ → ℕ → AddressEntry → List ℕ
hosts ex limit e = candidates ex e.ip (last_of limit e - first_of limit e) (suc (first_of limit e))

abbrev pub entry_hosts : List ℕ → ℕ → List AddressEntry → List ℕ
entry_hosts ex limit [] = []
entry_hosts ex limit (e ∷ es) =
    if is_usable e then hosts ex limit e ++ entry_hosts ex limit es else entry_hosts ex limit es

abbrev pub interface_hosts : List ℕ → ℕ → List Interface → List ℕ
interface_hosts ex limit [] = []
interface_hosts ex limit (i ∷ is) =
    if is_scanned i
    then entry_hosts ex limit i.address_entries ++ interface_hosts ex limit is
    else interface_hosts ex limit is

-- No bound of a subnet is the address 255.255.255.255.
abbrev pub IsBounded : ℕ → AddressEntry → Type 0
IsBounded limit e = (first_of limit e < 4294967295) × (last_of limit e < 4294967295)

new_subnet-IsSkipped :
    (ex : List ℕ) (first last localhost : ℕ)
    → first < 4294967295
    → last < 4294967295
    → (left ex (new_subnet ex first last localhost)
        ≡ candidates ex localhost (last - first) (suc first))
      × IsSettled ex (new_subnet ex first last localhost)
unfolding new_subnet next_address
new_subnet-IsSkipped ex first last localhost f l =
    let raw : Subnet = record {
      first = first;
      current = first;
      last = last;
      localhost = localhost;
    } in
    let r = skip-IsSkipped (suc last - first) ex (increment raw) l (omega arith) in
    let count : suc last - (first + 1) % two_32 ≡ last - first = omega arith in
    let start : (first + 1) % two_32 ≡ suc first = omega arith in
    (r.same_left ∙ rw (count, start) refl, r.is_settled)

left_from-append :
    (ex : List ℕ) (ss ts : List Subnet)
    → left_from ex 0 (ss ++ ts) ≡ left_from ex 0 ss ++ left_from ex 0 ts
left_from-append ex [] ts = refl
left_from-append ex (s ∷ ss) ts =
    ap (λ l. left ex s ++ l) (left_from-append ex ss ts)
    ∙ sym (append_assoc (left ex s) (left_from ex 0 ss) (left_from ex 0 ts))

All-append : (P : Subnet → Type 0) (ss ts : List Subnet) → All P ss → All P ts → All P (ss ++ ts)
All-append P [] ts p q = q
All-append P (s ∷ ss) ts p q = (p.0, All-append P ss ts p.1 q)

-- Subnets with the given addresses left.
abbrev pub Holds : List ℕ → List Subnet → List ℕ → Type 0
Holds ex ss l = (left_from ex 0 ss ≡ l) × All (IsSettled ex) ss

entry_subnets-Holds :
    (ex : List ℕ) (limit : ℕ) (es : List AddressEntry)
    → All (IsBounded limit) es
    → Holds ex (entry_subnets ex limit es) (entry_hosts ex limit es)
unfolding entry_subnets
entry_subnets-Holds ex limit [] b = (refl, tt)
entry_subnets-Holds ex limit (e ∷ es) b =
    let rest = entry_subnets-Holds ex limit es b.1 in
    let r = new_subnet-IsSkipped ex (first_of limit e) (last_of limit e) e.ip b.0.0 b.0.1 in
    elim (Bool-cases (is_usable e)) [
      | inl u ↦ rw (u) (ap₂ (λ l m. l ++ m) r.0 rest.0, (r.1, rest.1))
      | inr u ↦ rw (u) rest
    ]

interface_subnets-Holds :
    (ex : List ℕ) (limit : ℕ) (is : List Interface)
    → All (λ i. All (IsBounded limit) i.address_entries) is
    → Holds ex (interface_subnets ex limit is) (interface_hosts ex limit is)
unfolding interface_subnets
interface_subnets-Holds ex limit [] b = (refl, tt)
interface_subnets-Holds ex limit (i ∷ is) b =
    let rest = interface_subnets-Holds ex limit is b.1 in
    let here = entry_subnets-Holds ex limit i.address_entries b.0 in
    elim (Bool-cases (is_scanned i)) [
      | inl s ↦ rw (s) (
        left_from-append ex (entry_subnets ex limit i.address_entries)
              (interface_subnets ex limit is)
            ∙ ap₂ (λ l m. l ++ m) here.0 rest.0,
        All-append (IsSettled ex) (entry_subnets ex limit i.address_entries)
            (interface_subnets ex limit is) here.1 rest.1,
      )
      | inr s ↦ rw (s) rest
    ]

-- All addresses of a scan: the priority ones, and those of the local networks unless only the
-- former are asked for.
abbrev pub scanned : List Interface → Generator → List ℕ
scanned interfaces g =
    g.priority_addresses
    ++ (if g.priority_only
        then []
        else interface_hosts g.priority_addresses g.net_mask_limit interfaces)

pub reset-Holds :
    (interfaces : List Interface) (g : Generator)
    → All (λ i. All (IsBounded g.net_mask_limit) i.address_entries) interfaces
    → Holds g.priority_addresses (reset interfaces g).subnets (
        if g.priority_only
        then []
        else interface_hosts g.priority_addresses g.net_mask_limit interfaces)
unfolding reset
reset-Holds interfaces g b = elim (Bool-cases g.priority_only) [
  | inl only ↦ rw (only) (refl, tt)
  | inr both ↦
      rw (both) (interface_subnets-Holds g.priority_addresses g.net_mask_limit interfaces b)
]

-- After a reset, going through the generator as long as it has a next address gives exactly these
-- addresses in this order: the priority ones, and unless only they are asked for, for each usable
-- IPv4 address of each interface that is up and running and no loopback, the addresses behind the
-- first of its subnet up to the last but the interface's own and the priority ones. For a
-- link-local address the subnet is 169.254.0.179 and 169.254.0.180. No bound of a subnet may be
-- 255.255.255.255.
pub drain-reset :
    (n : ℕ) (interfaces : List Interface) (g : Generator)
    → All (λ i. All (IsBounded g.net_mask_limit) i.address_entries) interfaces
    → length (scanned interfaces g) ≤ n
    → drain n (reset interfaces g) ≡ scanned interfaces g
unfolding reset
drain-reset n interfaces g b h =
    let r = reset-Holds interfaces g b in
    let all = ap (λ l. g.priority_addresses ++ l) r.0 in
    drain-remaining n (reset interfaces g) r.1 (omega (arith, h, ap length all)) ∙ all
