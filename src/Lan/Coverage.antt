-- ===== src/Lan/Coverage.antt =====
-- Which addresses a scan with local_ip_address_generator.cpp visits.
use dbus_fronius.Base.{
  ℕ, zero, suc, ◌+◌, ◌-◌, ◌≤◌, ◌≡◌, refl, ap, ap₂, ◌∙◌, Bool, true, false, not, ◌&&◌, ◌||◌, List,
  [], ◌∷◌, ◌++◌, arith, length, All, ltb, leb, if◌then◌else◌, Bool-cases, inl, inr,
}
use dbus_fronius.Lan.{contains, is_skipped}
use dbus_fronius.Lan.Generator.{
  AddressEntry, Interface, Generator, is_scanned, is_usable, first_of, last_of, reset,
}
use dbus_fronius.Lan.Subnets.{candidates}
use dbus_fronius.Lan.Enumerate.{drain}
use dbus_fronius.Lan.Scan.{IsBounded, hosts, entry_hosts, interface_hosts, scanned, drain-reset}

-- An address lies behind the first address of an entry's subnet and not behind the last, and it is
-- neither the interface's own nor among the exceptions.
abbrev pub is_host : List ℕ → ℕ → AddressEntry → ℕ → Bool
is_host ex limit e a =
    ltb (first_of limit e) a && (leb a (last_of limit e) && not (is_skipped ex e.ip a))

-- A usable address of one of these entries has it for a host.
abbrev pub is_entry_host : List ℕ → ℕ → List AddressEntry → ℕ → Bool
is_entry_host ex limit [] a = false
is_entry_host ex limit (e ∷ es) a =
    (is_usable e && is_host ex limit e a) || is_entry_host ex limit es a

abbrev pub is_lan_host : List ℕ → ℕ → List Interface → ℕ → Bool
is_lan_host ex limit [] a = false
is_lan_host ex limit (i ∷ is) a =
    (is_scanned i && is_entry_host ex limit i.address_entries a) || is_lan_host ex limit is a

contains-append : (l m : List ℕ) (a : ℕ) → contains (l ++ m) a ≡ (contains l a || contains m a)
contains-append [] m a = refl
contains-append (b ∷ l) m a = ground (arith, contains-append l m a)

contains-step :
    (here there : Bool) (n x a : ℕ) (rest : List ℕ)
    → (x ≡ a → here ≡ there)
    → contains rest a ≡ (leb (suc x) a && (ltb a (suc x + n) && not there))
    → contains (if here then rest else x ∷ rest) a ≡ (leb x a && (ltb a (x + suc n) && not there))
contains-step true there n x a rest same e = ground arith
contains-step false there n x a rest same e = ground arith

contains-candidates :
    (ex : List ℕ) (h n x a : ℕ)
    → contains (candidates ex h n x) a ≡ (leb x a && (ltb a (x + n) && not (is_skipped ex h a)))
contains-candidates ex h zero x a = ground arith
contains-candidates ex h (suc n) x a =
    contains-step (is_skipped ex h x) (is_skipped ex h a) n x a (candidates ex h n (suc x))
      (λ e. ap (is_skipped ex h) e) (contains-candidates ex h n (suc x) a)

contains-hosts :
    (ex : List ℕ) (limit : ℕ) (e : AddressEntry) (a : ℕ)
    → contains (hosts ex limit e) a ≡ is_host ex limit e a
contains-hosts ex limit e a = ground (
  arith,
  contains-candidates ex e.ip (last_of limit e - first_of limit e) (suc (first_of limit e)) a,
)

contains-entry_hosts :
    (ex : List ℕ) (limit : ℕ) (es : List AddressEntry) (a : ℕ)
    → contains (entry_hosts ex limit es) a ≡ is_entry_host ex limit es a
contains-entry_hosts ex limit [] a = refl
contains-entry_hosts ex limit (e ∷ es) a =
    let rest = contains-entry_hosts ex limit es a in
    elim (Bool-cases (is_usable e)) [
      | inl u ↦ rw (u) (
          contains-append (hosts ex limit e) (entry_hosts ex limit es) a
          ∙ ap₂ (λ b c. b || c) (contains-hosts ex limit e a) rest)
      | inr u ↦ rw (u) rest
    ]

contains-interface_hosts :
    (ex : List ℕ) (limit : ℕ) (is : List Interface) (a : ℕ)
    → contains (interface_hosts ex limit is) a ≡ is_lan_host ex limit is a
contains-interface_hosts ex limit [] a = refl
contains-interface_hosts ex limit (i ∷ is) a =
    let rest = contains-interface_hosts ex limit is a in
    elim (Bool-cases (is_scanned i)) [
      | inl s ↦ rw (s) (
          contains-append (entry_hosts ex limit i.address_entries) (interface_hosts ex limit is) a
          ∙ ap₂ (λ b c. b || c) (contains-entry_hosts ex limit i.address_entries a) rest)
      | inr s ↦ rw (s) rest
    ]

-- After a reset, the generator returns an address before its end if and only if it is a priority
-- address, or the scan is not only for these and the address is a host of the local network: it
-- lies behind the first and not behind the last address of the subnet of a usable IPv4 address of
-- an interface that is up and running and no loopback, and is not this address itself. No bound of
-- a subnet may be 255.255.255.255.
pub contains-drain :
    (n a : ℕ) (interfaces : List Interface) (g : Generator)
    → All (λ i. All (IsBounded g.net_mask_limit) i.address_entries) interfaces
    → length (scanned interfaces g) ≤ n
    → contains (drain n (reset interfaces g)) a ≡ (
        contains g.priority_addresses a
        || (not g.priority_only && is_lan_host g.priority_addresses g.net_mask_limit interfaces a))
contains-drain n a interfaces g b h =
    let lan = contains-interface_hosts g.priority_addresses g.net_mask_limit interfaces a in
    ap (λ l. contains l a) (drain-reset n interfaces g b h)
    ∙ contains-append g.priority_addresses _ a
    ∙ elim (Bool-cases g.priority_only) [
      | inl only ↦ rw (only) refl
      | inr both ↦ rw (both) (ap (λ b. contains g.priority_addresses a || b) lan)
    ]
