-- ===== src/SolarDetector/Replies.antt =====
-- solar_api_detector.cpp: what is kept true of a reply when requests of its api end.
use Prim.Native.String.{String}
use dbus_fronius.Base.{
  ℕ, ◌<◌, ◌≡◌, refl, sym, ap, subst, ◌∙◌, Bool, true, false, not, ◌&&◌, ◌||◌, ◌==◌, ==_iff, ◌⊎◌,
  inl, inr, Bool-cases, Option, none, some, List, [], ◌∷◌, ◌++◌, lookup, insert, lookup-insert,
  if◌then◌else◌,
}
use dbus_fronius.SolarApi.{InverterInfo}
use dbus_fronius.SolarApi.Client.{RequestType}
use dbus_fronius.SolarDetector.{
  Reply, Signal, finished, SolarApiDetector, is_pending, emit, list_inverters,
  on_converter_info_found,
}
use dbus_fronius.SolarDetector.Table.{AreNew}
use dbus_fronius.SolarDetector.Core.{IsCore, listed_inverters}
use dbus_fronius.SolarDetector.Listing.{any_known, list_inverters-Lists}
use dbus_fronius.SolarDetector.Course.{no_request, is_listed, is_stage, stage_of, IsKept}

still_fresh :
    (r s : ℕ) (old new : Reply) (before after : Option Reply) (created : ℕ) (b : Bool)
    → (b ≡ true → before ≡ some old)
    → after ≡ (if b then some new else before)
    → (before ≡ none) ⊎ (r < created)
    → (after ≡ none) ⊎ (r < created)
still_fresh r s old new before after created true h e (inl n) = cc (h refl)
still_fresh r s old new before after created true h e (inr l) = inr l
still_fresh r s old new before after created false h e (inl n) = inl (e ∙ n)
still_fresh r s old new before after created false h e (inr l) = inr l

listed_stage : (o : Option RequestType) → no_request o ≡ true → is_stage o ≡ true
listed_stage none e = refl
listed_stage (some type) e = cc

module _ {D : Type 0} where
  -- The entry of one reply in the table of the replies changes.
  pub record Replaces (r s : ℕ) (new : Reply) (d d' : SolarApiDetector D) : Type 0 where
    pub same_entries : d'.detector_reply_to_inverter ≡ d.detector_reply_to_inverter
    pub same_signals : d'.signals ≡ d.signals
    pub same_created : d'.created ≡ d.created
    pub looked_up : lookup r d'.replies ≡ (if s == r then some new else lookup r d.replies)

  pub moved_core :
      (r : ℕ) (listed listed' : Bool) (d d' : SolarApiDetector D)
      → listed' ≡ listed
      → d'.detector_reply_to_inverter ≡ d.detector_reply_to_inverter
      → d'.signals ≡ d.signals
      → IsCore r listed d.detector_reply_to_inverter d.signals
      → IsCore r listed' d'.detector_reply_to_inverter d'.signals
  moved_core r listed listed' d d' l t s c =
      subst (λ (x : Bool). IsCore r x d'.detector_reply_to_inverter d'.signals) (sym l)
        (subst (λ (x : List _). IsCore r listed x d'.signals) (sym t)
          (subst (λ (x : List (Signal D)). IsCore r listed d.detector_reply_to_inverter x) (sym s)
            c))

  old_entry :
      (r s : ℕ) (old : Reply) (d : SolarApiDetector D)
      → lookup s d.replies ≡ some old
      → (s == r) ≡ true
      → lookup r d.replies ≡ some old
  old_entry r s old d h e = subst (λ (x : ℕ). lookup x d.replies ≡ some old) ((==_iff s r).0 e) h

  -- The request of a reply's api changes to another one.
  pub replaced-IsKept :
      (r s : ℕ) (old new : Reply) (d d' : SolarApiDetector D)
      → lookup s d.replies ≡ some old
      → no_request new.api.request_type ≡ no_request old.api.request_type
      → is_stage new.api.request_type ≡ true
      → Replaces r s new d d'
      → IsKept r d
      → IsKept r d'
  replaced-IsKept r s old new d d' h same stage p c = record {
    core =
        moved_core r _ _ d d'
          (listed_same (s == r) (lookup r d.replies) (lookup r d'.replies) (old_entry r s old d h)
            p.looked_up)
          p.same_entries p.same_signals c.core;
    stage = stage_same (s == r) (lookup r d.replies) (lookup r d'.replies) p.looked_up c.stage;
    fresh =
        subst (λ (n : ℕ). (lookup r d'.replies ≡ none) ⊎ (r < n)) (sym p.same_created)
          (still_fresh r s old new (lookup r d.replies) (lookup r d'.replies) d.created (s == r)
            (old_entry r s old d h) p.looked_up c.fresh);
  }
    where
      listed_same :
          (b : Bool) (before after : Option Reply)
          → (b ≡ true → before ≡ some old)
          → after ≡ (if b then some new else before)
          → is_listed after ≡ is_listed before
      listed_same true before after f e = ap is_listed e ∙ (same ∙ ap is_listed (sym (f refl)))
      listed_same false before after f e = ap is_listed e

      stage_same :
          (b : Bool) (before after : Option Reply)
          → after ≡ (if b then some new else before)
          → stage_of before ≡ true
          → stage_of after ≡ true
      stage_same true before after e k = ap stage_of e ∙ stage
      stage_same false before after e k = ap stage_of e ∙ k

  -- The request for the list of inverters ends.
  module _ (r s : ℕ) (old new : Reply) (d d' : SolarApiDetector D)
      (h : lookup s d.replies ≡ some old) (asked : no_request old.api.request_type ≡ false)
      (answered : no_request new.api.request_type ≡ true)
      (looked : lookup r d'.replies ≡ (if s == r then some new else lookup r d.replies))
      (created : d'.created ≡ d.created) (c : IsKept r d) where
    unlisted_before : (s == r && is_listed (lookup r d.replies)) ≡ false
    unlisted_before = elim (Bool-cases (s == r)) [
      | inl e ↦
          let none_yet : is_listed (lookup r d.replies) ≡ false =
            ap is_listed (old_entry r s old d h e) ∙ asked in
          rw (e, none_yet) refl
      | inr e ↦ rw e refl
    ]

    listed_after :
        is_listed (lookup r d'.replies) ≡ (if s == r then true else is_listed (lookup r d.replies))
    listed_after = elim (Bool-cases (s == r)) [
      | inl e ↦ rw e (ap is_listed (rw e at looked) ∙ answered)
      | inr e ↦ rw e (ap is_listed (rw e at looked))
    ]

    stage_after : stage_of (lookup r d'.replies) ≡ true
    stage_after = elim (Bool-cases (s == r)) [
      | inl e ↦ ap stage_of (rw e at looked) ∙ listed_stage new.api.request_type answered
      | inr e ↦ ap stage_of (rw e at looked) ∙ c.stage
    ]

    fresh_after : (lookup r d'.replies ≡ none) ⊎ (r < d'.created)
    fresh_after =
        subst (λ (n : ℕ). (lookup r d'.replies ≡ none) ⊎ (r < n)) (sym created)
          (still_fresh r s old new (lookup r d.replies) (lookup r d'.replies) d.created (s == r)
            (old_entry r s old d h) looked c.fresh)

    core_after :
        (known : Bool)
        → d'.signals ≡ d.signals
        → AreNew d'.detector_reply_to_inverter
        → is_pending r d'.detector_reply_to_inverter
          ≡ (is_pending r d.detector_reply_to_inverter || (s == r && known))
        → IsCore r
            (is_listed (lookup r d'.replies))
            d'.detector_reply_to_inverter
            (if known then d'.signals else d'.signals ++ finished s ∷ [])
    core_after known same new_entries pending =
        subst
          (λ (x : Bool).
            IsCore r x d'.detector_reply_to_inverter
              (if known then d'.signals else d'.signals ++ finished s ∷ []))
          (sym listed_after)
          (subst
            (λ (x : List (Signal D)).
              IsCore r (if s == r then true else is_listed (lookup r d.replies))
                d'.detector_reply_to_inverter (if known then x else x ++ finished s ∷ []))
            (sym same)
            (listed_inverters r s (is_listed (lookup r d.replies)) known
              d.detector_reply_to_inverter d'.detector_reply_to_inverter d.signals unlisted_before
              new_entries pending c.core))

    listed_result :
        (known b : Bool)
        → b ≡ not known
        → d'.signals ≡ d.signals
        → AreNew d'.detector_reply_to_inverter
        → is_pending r d'.detector_reply_to_inverter
          ≡ (is_pending r d.detector_reply_to_inverter || (s == r && known))
        → IsKept r (if b then emit (finished s) d' else d')
    listed_result true true f same new_entries pending = cc
    listed_result true false f same new_entries pending = record {
      core = core_after true same new_entries pending;
      stage = stage_after;
      fresh = fresh_after;
    }
    listed_result false true f same new_entries pending = record {
      core = core_after false same new_entries pending;
      stage = stage_after;
      fresh = fresh_after;
    }
    listed_result false false f same new_entries pending = cc

  pub on_converter_info_found-IsKept :
      (r s : ℕ) (host : String) (inverters : List InverterInfo) (old new : Reply)
      (d : SolarApiDetector D)
      → lookup s d.replies ≡ some old
      → no_request old.api.request_type ≡ false
      → no_request new.api.request_type ≡ true
      → IsKept r d
      → IsKept r
          (on_converter_info_found s host inverters (record d { replies = insert s new d.replies }))
  unfolding on_converter_info_found
  on_converter_info_found-IsKept r s host inverters old new d h asked answered c =
      let d1 = record d { replies = insert s new d.replies } in
      let l = list_inverters-Lists s host inverters true d1 in
      let result = list_inverters s host inverters true d1 in
      listed_result r s old new d result.1 h asked answered
        (ap (λ (m : List (ℕ × Reply)). lookup r m) l.replies ∙ lookup-insert s r new d.replies)
        l.created c (any_known inverters) result.0 l.flag l.signals (l.are_new c.core.are_new)
        (l.pending r)
