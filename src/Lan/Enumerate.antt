-- ===== src/Lan/Enumerate.antt =====
-- What the address generator of local_ip_address_generator.cpp returns until its end.
use dbus_fronius.Base.{
  ℕ, zero, suc, ◌+◌, ◌-◌, ◌≤◌, ◌≡◌, refl, sym, ap, ◌∙◌, inl, inr, true, false, List, [], ◌∷◌, ◌++◌,
  arith, length, get_or, drop, All, ltb, if◌then◌else◌, Bool-cases,
}
use dbus_fronius.Lan.{Subnet, has_address}
use dbus_fronius.Lan.Generator.{Generator, exceptions, next_from, next, has_next_from, has_next}
use dbus_fronius.Lan.Subnets.{left, IsSettled, next_address-left}

-- What the subnets from an index on have left.
abbrev pub left_from : List ℕ → ℕ → List Subnet → List ℕ
left_from ex index [] = []
left_from ex (suc index) (s ∷ ss) = left_from ex index ss
left_from ex zero (s ∷ ss) = left ex s ++ left_from ex zero ss

left-end : (ex : List ℕ) (s : Subnet) → has_address s ≡ false → left ex s ≡ []
left-end ex s e =
    let none_left : suc s.last - s.current ≡ 0 = ground (arith, e) in rw (none_left) refl

next_from-left_from :
    (ex : List ℕ) (index : ℕ) (ss : List Subnet)
    → All (IsSettled ex) ss
    → has_next_from index ss ≡ true
    → let r = next_from ex index ss in
      (left_from ex index ss ≡ r.0 ∷ left_from ex r.2 r.1) × All (IsSettled ex) r.1
unfolding next_from has_next_from
next_from-left_from ex index [] v e = cc
next_from-left_from ex (suc index) (s ∷ ss) v e =
    let r = next_from-left_from ex index ss v.1 e in (r.0, (v.0, r.1))
next_from-left_from ex zero (s ∷ ss) v e = elim (Bool-cases (has_address s)) [
  | inl here ↦
      let r = next_address-left ex s v.0 here in
      rw (here) (ap (λ l. l ++ left_from ex zero ss) r.0, (r.1, v.1))
  | inr gone ↦
      let r = next_from-left_from ex zero ss v.1 (ground (arith, e, gone)) in
      rw (gone) (ap (λ l. l ++ left_from ex zero ss) (left-end ex s gone) ∙ r.0, (v.0, r.1))
]

has_next_from-left_from :
    (ex : List ℕ) (index : ℕ) (ss : List Subnet)
    → has_next_from index ss ≡ false
    → left_from ex index ss ≡ []
unfolding has_next_from
has_next_from-left_from ex index [] e = refl
has_next_from-left_from ex (suc index) (s ∷ ss) e = has_next_from-left_from ex index ss e
has_next_from-left_from ex zero (s ∷ ss) e =
    ap (λ l. l ++ left_from ex zero ss) (left-end ex s (ground (arith, e)))
    ∙ has_next_from-left_from ex zero ss (ground (arith, e))

drop-get_or :
    (i : ℕ) (l : List ℕ) → ltb i (length l) ≡ true → drop i l ≡ get_or l i 0 ∷ drop (suc i) l
drop-get_or i [] e = absurd (ground (arith, e))
drop-get_or zero (a ∷ l) e = refl
drop-get_or (suc i) (a ∷ l) e = drop-get_or i l (ground (arith, e))

drop_all : (i : ℕ) (l : List ℕ) → ltb i (length l) ≡ false → drop i l ≡ []
drop_all zero [] e = refl
drop_all (suc i) [] e = refl
drop_all zero (a ∷ l) e = absurd (ground (arith, e))
drop_all (suc i) (a ∷ l) e = drop_all i l (ground (arith, e))

-- What the generator has left.
abbrev pub remaining : Generator → List ℕ
remaining g =
    drop g.priority_index g.priority_addresses ++ left_from (exceptions g) g.subnet_index g.subnets

abbrev pub AreSettled : Generator → Type 0
AreSettled g = All (IsSettled (exceptions g)) g.subnets

pub next-remaining :
    (g : Generator)
    → AreSettled g
    → has_next g ≡ true
    → (remaining g ≡ (next g).0 ∷ remaining (next g).1) × AreSettled (next g).1
unfolding next has_next
next-remaining g v e =
    let one_more : suc g.priority_index ≡ g.priority_index + 1 = omega arith in
    elim (Bool-cases (ltb g.priority_index (length g.priority_addresses))) [
      | inl more ↦ rw (more) (
        ap (λ l. l ++ left_from (exceptions g) g.subnet_index g.subnets)
            (drop-get_or g.priority_index g.priority_addresses more
              ∙ ap
                  (λ i.
                    get_or g.priority_addresses g.priority_index 0 ∷ drop i g.priority_addresses)
                  one_more),
        v,
      )
      | inr over ↦
          let r =
            next_from-left_from (exceptions g) g.subnet_index g.subnets v
              (ground (arith, e, over)) in
          let done = drop_all g.priority_index g.priority_addresses over in
          rw (over) (rw (done) r.0, r.1)
    ]

pub has_next-remaining : (g : Generator) → has_next g ≡ false → remaining g ≡ []
unfolding has_next
has_next-remaining g e = elim (Bool-cases (ltb g.priority_index (length g.priority_addresses))) [
  | inl more ↦ absurd (ground (arith, e, more))
  | inr over ↦
      rw (drop_all g.priority_index g.priority_addresses over)
        (has_next_from-left_from (exceptions g) g.subnet_index g.subnets (ground (arith, e, over)))
]

no_length : (l : List ℕ) → length l ≤ 0 → l ≡ []
no_length [] h = refl
no_length (a ∷ l) h = absurd (omega (arith, h))

-- What the loop `while (g.hasNext()) g.next()` gets, in at most `n` rounds.
unfoldable pub drain : ℕ → Generator → List ℕ
drain zero g = []
drain (suc n) g = let rest = drain n (next g).1 in if has_next g then (next g).0 ∷ rest else []

pub drain-remaining :
    (n : ℕ) (g : Generator) → AreSettled g → length (remaining g) ≤ n → drain n g ≡ remaining g
unfolding drain
drain-remaining zero g v h = sym (no_length (remaining g) h)
drain-remaining (suc n) g v h = elim (Bool-cases (has_next g)) [
  | inl e ↦
      let r = next-remaining g v e in
      let shorter : length (remaining (next g).1) ≤ n = omega (arith, h, ap length r.0) in
      rw (e) (ap (λ l. (next g).0 ∷ l) (drain-remaining n (next g).1 r.1 shorter) ∙ sym r.0)
  | inr e ↦ rw (e) (sym (has_next-remaining g e))
]
