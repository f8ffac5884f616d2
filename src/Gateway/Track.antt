-- ===== src/Gateway/Track.antt =====
-- How the loop of inverter_gateway.cpp goes through the addresses of a scan.
use dbus_fronius.Base.{
  ℕ, zero, suc, ◌≡◌, ◌≢◌, refl, sym, ap, ◌∙◌, inl, inr, Bool, true, false, ◌&&◌, List, [], ◌∷◌,
  ◌++◌, append_assoc, arith, length, ltb, if_both, Bool-cases,
}
use dbus_fronius.Lan.Generator.{next, has_next}
use dbus_fronius.Lan.Enumerate.{remaining, AreSettled, next-remaining, has_next-remaining}
use dbus_fronius.Gateway.{
  is_try_priority, HostScan, Gateway, scan_host, scan_next, fill, max_simultaneous_requests,
}
use dbus_fronius.Gateway.Events.{no_hosts}

-- What was started and what the generator has left make up all addresses.
pub record IsOnTrack (total : List ℕ) (g : Gateway) : Type 0 where
  pub settled : AreSettled g.address_generator
  pub visited : g.started ++ remaining g.address_generator ≡ total
  pub no_fallback : is_try_priority g.scan_type ≡ false

pub scan_next-IsOnTrack :
    (total : List ℕ) (g : Gateway)
    → has_next g.address_generator ≡ true
    → IsOnTrack total g
    → IsOnTrack total (scan_next g)
unfolding scan_next scan_host
scan_next-IsOnTrack total g e v =
    let r = next-remaining g.address_generator v.settled e in
    record {
      settled = r.1;
      visited =
          append_assoc g.started ((next g.address_generator).0 ∷ [])
            (remaining (next g.address_generator).1)
          ∙ ap (λ l. g.started ++ l) (sym r.0)
          ∙ v.visited;
      no_fallback = v.no_fallback;
    }

no_hosts-append : (hs : List (ℕ × HostScan)) (h : ℕ × HostScan) → no_hosts (hs ++ h ∷ []) ≡ false
no_hosts-append [] h = refl
no_hosts-append (i ∷ hs) h = refl

pub scan_next-active : (g : Gateway) → no_hosts (scan_next g).active_hosts ≡ false
unfolding scan_next scan_host
scan_next-active g = no_hosts-append g.active_hosts _

pub fill-active :
    (fuel : ℕ) (g : Gateway)
    → no_hosts g.active_hosts ≡ false
    → no_hosts (fill fuel g).active_hosts ≡ false
unfolding fill
fill-active zero g e = e
fill-active (suc fuel) g e =
    if_both {X = Gateway} (λ d. no_hosts d.active_hosts ≡ false) _
      (fill-active fuel (scan_next g) (scan_next-active g)) e

pub fill-type : (fuel : ℕ) (g : Gateway) → (fill fuel g).scan_type ≡ g.scan_type
unfolding fill scan_next scan_host
fill-type zero g = refl
fill-type (suc fuel) g =
    if_both {X = Gateway} (λ d. d.scan_type ≡ g.scan_type) _ (fill-type fuel (scan_next g)) refl

pub both_tests : (a b : Bool) → (a && b) ≡ true → b ≡ true
both_tests a b e = ground arith

pub fill-IsOnTrack :
    (total : List ℕ) (fuel : ℕ) (g : Gateway) → IsOnTrack total g → IsOnTrack total (fill fuel g)
unfolding fill
fill-IsOnTrack total zero g v = v
fill-IsOnTrack total (suc fuel) g v =
    elim (Bool-cases
      (ltb (length g.active_hosts) max_simultaneous_requests && has_next g.address_generator)) [
        | inl e ↦ rw (e) (
            fill-IsOnTrack total fuel (scan_next g)
              (scan_next-IsOnTrack total g (both_tests _ (has_next g.address_generator) e) v))
        | inr e ↦ rw (e) v
      ]

no_hosts-length : (hs : List (ℕ × HostScan)) → no_hosts hs ≡ true → length hs ≡ 0
no_hosts-length [] e = refl
no_hosts-length (h ∷ hs) e = cc

pub not_both : true ≢ false
not_both e = cc

-- The loop ends without an active host only if there is no address.
pub fill-ended :
    (fuel : ℕ) (g : Gateway)
    → no_hosts (fill (suc fuel) g).active_hosts ≡ true
    → remaining (fill (suc fuel) g).address_generator ≡ []
unfolding fill
fill-ended fuel g =
    elim (Bool-cases
      (ltb (length g.active_hosts) max_simultaneous_requests && has_next g.address_generator)) [
        | inl e ↦ rw (e) (λ idle.
            absurd (not_both (sym idle ∙ fill-active fuel (scan_next g) (scan_next-active g))))
        | inr e ↦ rw (e) (λ idle.
            has_next-remaining g.address_generator
              (ground (arith, e, no_hosts-length g.active_hosts idle)))
      ]
