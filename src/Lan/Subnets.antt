-- ===== src/Lan/Subnets.antt =====
-- The addresses that one subnet of local_ip_address_generator.cpp returns.
use dbus_fronius.Base.{
  ℕ, zero, suc, ◌+◌, ◌-◌, ◌%◌, ◌≤◌, ◌<◌, ◌≡◌, refl, sym, ap, ◌∙◌, inl, inr, Bool, true, false, ◌&&◌,
  List, [], ◌∷◌, arith, if◌then◌else◌, Bool-cases,
}
use dbus_fronius.Lan.{Subnet, is_skipped, has_address, increment, skip, next_address, two_32}

-- Among the `n` addresses from `a` on, those that are scanned.
abbrev pub candidates : List ℕ → ℕ → ℕ → ℕ → List ℕ
candidates ex localhost zero a = []
candidates ex localhost (suc n) a =
    if is_skipped ex localhost a
    then candidates ex localhost n (suc a)
    else a ∷ candidates ex localhost n (suc a)

-- What a subnet has left.
abbrev pub left : List ℕ → Subnet → List ℕ
left ex s = candidates ex s.localhost (suc s.last - s.current) s.current

-- The current address is one to scan, or past the end; no increment wraps around.
pub record IsSettled (ex : List ℕ) (s : Subnet) : Type 0 where
  pub small : s.last < 4294967295
  pub settled : (has_address s && is_skipped ex s.localhost s.current) ≡ false

-- What has been skipped was not to scan.
pub record IsSkipped (ex : List ℕ) (s d : Subnet) : Type 0 where
  pub same_left : left ex d ≡ left ex s
  pub is_settled : IsSettled ex d

candidates_skip :
    (ex : List ℕ) (h n a m b : ℕ)
    → n ≡ suc m
    → b ≡ suc a
    → is_skipped ex h a ≡ true
    → candidates ex h m b ≡ candidates ex h n a
candidates_skip ex h n a m b p q e = rw (p, q, e) refl

candidates_keep :
    (ex : List ℕ) (h n a m b : ℕ)
    → n ≡ suc m
    → b ≡ suc a
    → is_skipped ex h a ≡ false
    → candidates ex h n a ≡ a ∷ candidates ex h m b
candidates_keep ex h n a m b p q e = rw (p, q, e) refl

both_true : (a b : Bool) → (a && b) ≡ true → (a ≡ true) × (b ≡ true)
both_true a b e = ground arith

left-increment :
    (ex : List ℕ) (s : Subnet)
    → s.last < 4294967295
    → (has_address s && is_skipped ex s.localhost s.current) ≡ true
    → left ex (increment s) ≡ left ex s
left-increment ex s small e =
    let t = both_true (has_address s) (is_skipped ex s.localhost s.current) e in
    let inside : s.current ≤ s.last = ground (arith, t.0) in
    candidates_skip ex s.localhost (suc s.last - s.current) s.current
      (suc s.last - (s.current + 1) % two_32) ((s.current + 1) % two_32) (omega arith) (omega arith)
      t.1

pub skip-IsSkipped :
    (fuel : ℕ) (ex : List ℕ) (s : Subnet)
    → s.last < 4294967295
    → suc s.last - s.current ≤ fuel
    → IsSkipped ex s (skip fuel ex s)
unfolding skip
skip-IsSkipped zero ex s small enough = record {
  same_left = refl;
  is_settled = record { small = small; settled = ground arith };
}
skip-IsSkipped (suc fuel) ex s small enough =
    elim (Bool-cases (has_address s && is_skipped ex s.localhost s.current)) [
      | inl e ↦
          let inside : s.current ≤ s.last = ground (arith, both_true (has_address s) _ e) in
          let r = skip-IsSkipped fuel ex (increment s) small (omega arith) in
          rw (e) (record {
            same_left = r.same_left ∙ left-increment ex s small e;
            is_settled = r.is_settled;
          })
      | inr e ↦
          rw (e) (record { same_left = refl; is_settled = record { small = small; settled = e } })
    ]

-- One call of Subnet::next on a subnet with an address left.
pub next_address-left :
    (ex : List ℕ) (s : Subnet)
    → IsSettled ex s
    → has_address s ≡ true
    → (left ex s ≡ (next_address ex s).0 ∷ left ex (next_address ex s).1)
      × IsSettled ex (next_address ex s).1
unfolding next_address
next_address-left ex s v e =
    let inside : s.current ≤ s.last = ground (arith, e) in
    let small = v.small in
    let fresh : is_skipped ex s.localhost s.current ≡ false = ground (arith, v.settled) in
    let r = skip-IsSkipped (suc s.last - s.current) ex (increment s) small (omega arith) in
    (
      candidates_keep ex s.localhost (suc s.last - s.current) s.current
            (suc s.last - (s.current + 1) % two_32) ((s.current + 1) % two_32) (omega arith)
            (omega arith) fresh
          ∙ ap (λ l. s.current ∷ l) (sym r.same_left),
      r.is_settled,
    )
