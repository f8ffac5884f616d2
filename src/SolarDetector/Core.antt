-- ===== src/SolarDetector/Core.antt =====
-- solar_api_detector.cpp: what is kept true of one reply, as a detection ends and as the list of the
-- inverters comes.
use dbus_fronius.Base.{
  ℕ, ◌≡◌, ap, Bool, true, false, not, ◌&&◌, ◌||◌, ◌==◌, ==_iff, some, List, [], ◌∷◌, ◌++◌,
  if◌then◌else◌, arith,
}
use dbus_fronius.Defines.{DeviceInfo}
use dbus_fronius.SolarDetector.{
  ReplyToInverter, Signal, found, finished, entry, without, is_pending,
}
use dbus_fronius.SolarDetector.Table.{AreNew, entry-AreNew, without-AreNew, is_pending-without}
use dbus_fronius.SolarDetector.Ended.{is_ended, is_orderly, is_ended-append, is_orderly-append}

module _ {D : Type 0} where
  -- The signals of a reply are in order; it has ended exactly if its inverters are listed and none of
  -- their detections is left; detections are only left after the list.
  pub record IsCore (r : ℕ) (listed : Bool) (table : List (ℕ × ReplyToInverter))
      (signals : List (Signal D)) : Type 0 where
    pub are_new : AreNew table
    pub orderly : is_orderly r signals ≡ true
    pub ended : is_ended r signals ≡ (listed && not (is_pending r table))
    pub unlisted : (is_pending r table && not listed) ≡ false

  -- The device of a detection is found, and it is done.
  module _ (r k : ℕ) (listed : Bool) (table : List (ℕ × ReplyToInverter))
      (signals : List (Signal D)) (e : ReplyToInverter) (info : DeviceInfo D)
      (h : entry k table ≡ some e) (c : IsCore r listed table signals) where
    split :
        is_pending r table
        ≡ ((e.reply == r && not e.device_found) || is_pending r (without k table))
    split = is_pending-without k r table e h

    fresh : e.device_found ≡ false
    fresh = entry-AreNew k table e c.are_new h

    ended_found : is_ended r (signals ++ found e.reply info ∷ []) ≡ (is_ended r signals || false)
    ended_found = is_ended-append r signals (found e.reply info)

    orderly_found : is_orderly r (signals ++ found e.reply info ∷ []) ≡ true
    orderly_found =
        is_orderly-append r signals (found e.reply info) c.orderly
          (ground (arith, c.ended, c.unlisted, split, fresh))

    link :
        (e.reply == r) ≡ true
        → is_pending e.reply (without k table) ≡ is_pending r (without k table)
    link t = ap (λ (x : ℕ). is_pending x (without k table)) ((==_iff e.reply r).0 t)

    pub ended_entry :
        (b : Bool)
        → is_pending e.reply (without k table) ≡ b
        → let signals' = signals ++ found e.reply info ∷ [] in
          IsCore r listed
            (without k table)
            (if b then signals' else signals' ++ finished e.reply ∷ [])
    ended_entry true b = record {
      are_new = without-AreNew k table c.are_new;
      orderly = orderly_found;
      ended = ground (arith, c.ended, c.unlisted, split, fresh, ended_found, b, link);
      unlisted = ground (arith, c.unlisted, split);
    }
    ended_entry false b = record {
      are_new = without-AreNew k table c.are_new;
      orderly =
          is_orderly-append r (signals ++ found e.reply info ∷ []) (finished e.reply) orderly_found
            (ground (arith, c.ended, c.unlisted, split, fresh, ended_found));
      ended = ground (
        arith,
        c.ended,
        c.unlisted,
        split,
        fresh,
        ended_found,
        b,
        link,
        is_ended-append r (signals ++ found e.reply info ∷ []) (finished e.reply),
      );
      unlisted = ground (arith, c.unlisted, split);
    }

  -- The list of the inverters of a reply comes, and some of them have a known type, or none has.
  pub listed_inverters :
      (r s : ℕ) (listed known : Bool) (table table' : List (ℕ × ReplyToInverter))
      (signals : List (Signal D))
      → (s == r && listed) ≡ false
      → AreNew table'
      → is_pending r table' ≡ (is_pending r table || (s == r && known))
      → IsCore r listed table signals
      → IsCore r
          (if s == r then true else listed)
          table'
          (if known then signals else signals ++ finished s ∷ [])
  listed_inverters r s listed true table table' signals first new pending c = record {
    are_new = new;
    orderly = c.orderly;
    ended = ground (arith, c.ended, c.unlisted, first, pending);
    unlisted = ground (arith, c.unlisted, first, pending);
  }
  listed_inverters r s listed false table table' signals first new pending c = record {
    are_new = new;
    orderly =
        is_orderly-append r signals (finished s) c.orderly
          (ground (arith, c.ended, c.unlisted, first));
    ended =
        ground (arith, c.ended, c.unlisted, first, pending, is_ended-append r signals (finished s));
    unlisted = ground (arith, c.unlisted, first, pending);
  }
