-- ===== src/Lan.antt =====
-- software/src/local_ip_address_generator.h and local_ip_address_generator.cpp: the addresses that
-- a scan visits. A quint32 is a number below 2^32. What Qt reports of the network's interfaces is
-- an argument of `reset`.
pub mod Generator
pub mod Subnets
pub mod Enumerate
pub mod Scan
pub mod Coverage
pub mod Progress
mod Tests
use dbus_fronius.Base.{
  ℕ, zero, suc, ◌+◌, ◌-◌, ◌%◌, Bool, true, false, ◌&&◌, ◌||◌, List, [], ◌∷◌, leb, ◌==◌,
  if◌then◌else◌,
}

abbrev pub two_32 : ℕ
two_32 = 4294967296

-- QSet::contains.
abbrev pub contains : List ℕ → ℕ → Bool
contains [] a = false
contains (b ∷ bs) a = b == a || contains bs a

pub record Subnet : Type 0 where
  pub first : ℕ
  pub current : ℕ
  pub last : ℕ
  pub localhost : ℕ

abbrev pub is_skipped : List ℕ → ℕ → ℕ → Bool
is_skipped exceptions localhost a = a == localhost || contains exceptions a

-- Subnet::hasNext.
abbrev pub has_address : Subnet → Bool
has_address s = leb s.current s.last

abbrev pub increment : Subnet → Subnet
increment s = record s { current = (s.current + 1) % two_32 }

-- The loop of Subnet::next. The addresses from the current one to the last are fuel enough, if the
-- last one is below 2^32 - 1.
unfoldable pub skip : ℕ → List ℕ → Subnet → Subnet
skip zero exceptions s = s
skip (suc fuel) exceptions s =
    let rest = skip fuel exceptions (increment s) in
    if has_address s && is_skipped exceptions s.localhost s.current then rest else s

-- Subnet::next: the address, and the subnet after it.
unfoldable pub next_address : List ℕ → Subnet → ℕ × Subnet
unfolding skip
next_address exceptions s = (s.current, skip (suc s.last - s.current) exceptions (increment s))

-- The constructor, which takes the first address off.
unfoldable pub new_subnet : List ℕ → (first last localhost : ℕ) → Subnet
unfolding next_address
new_subnet exceptions first last localhost =
    (next_address exceptions
      (record { first = first; current = first; last = last; localhost = localhost })).1

abbrev pub size : Subnet → ℕ
size s = (s.last + two_32 - s.first + 1) % two_32

abbrev pub position : Subnet → ℕ
position s = (s.current + two_32 - s.first) % two_32
