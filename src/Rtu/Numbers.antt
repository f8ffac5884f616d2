-- ===== src/Rtu/Numbers.antt =====
-- modbus_rtu_client.cpp: the requests by their numbers. After `n` answered requests, with `w` more
-- made, the active reply is number `n` and the queue holds the numbers after it.
use dbus_fronius.Base.{
  ℕ, zero, suc, ◌+◌, ◌<◌, ◌≡◌, refl, sym, ap, ap₂, subst, ◌∙◌, Bool, true, false, none, some, List,
  [], ◌∷◌, ◌++◌, arith, ltb, ◌==◌, if◌then◌else◌,
}
use dbus_fronius.Rtu.{Reply, Client, request_frame, is_idle, send}
use dbus_fronius.Rtu.Events.{submit}
use dbus_fronius.Rtu.Core.{Core, core, IsResult, settle, settle_next, heap_with, announced_with}

-- `upto n` counts from 0, and `from i w` gives the `w` numbers from `i` on.
unfoldable pub upto : ℕ → List ℕ
upto zero = []
upto (suc n) = upto n ++ n ∷ []

unfoldable pub from : ℕ → ℕ → List ℕ
from i zero = []
from i (suc w) = i ∷ from (suc i) w

pub from-snoc : (i w : ℕ) → from i w ++ (i + w) ∷ [] ≡ from i (suc w)
unfolding from
from-snoc i zero = ap (λ j. j ∷ []) (omega arith)
from-snoc i (suc w) =
    ap (λ l. i ∷ l)
      (subst (λ j. from (suc i) w ++ j ∷ [] ≡ from (suc i) (suc w)) (omega arith)
        (from-snoc (suc i) w))

-- The frames of the first requests.
unfoldable pub frames : (ℕ → Reply) → ℕ → List (List ℕ)
frames heap zero = []
frames heap (suc n) = frames heap n ++ request_frame (heap n) ∷ []

pub frames-cong :
    (g h : ℕ → Reply) (n : ℕ)
    → ((p : ℕ) → p < n → request_frame (g p) ≡ request_frame (h p))
    → frames g n ≡ frames h n
unfolding frames
frames-cong g h zero e = refl
frames-cong g h (suc n) e =
    ap₂ (λ a b. a ++ b ∷ []) (frames-cong g h n (λ p l. e p (omega arith))) (e n (omega arith))

-- The first `n` requests are answered, and the first `m` were sent.
pub record HasLog (n m : ℕ) (k : Core) : Type 0 where
  pub answered : k.announced ≡ upto n
  pub finished : (p : ℕ) → p < k.allocated → (k.heap p).finished ≡ ltb p n
  pub on_line : k.sent ≡ frames k.heap m

pub record IsResting (n : ℕ) (k : Core) : Type 0 where
  pub inactive : k.active ≡ none
  pub unqueued : k.queued ≡ []
  pub resting : k.at_rest ≡ true
  pub all_made : k.allocated ≡ n
  pub log : HasLog n n k

pub record IsBusy (n w : ℕ) (k : Core) : Type 0 where
  pub activated : k.active ≡ some n
  pub queue : k.queued ≡ from (suc n) w
  pub reading : k.at_rest ≡ false
  pub watched : k.timed ≡ true
  pub made : k.allocated ≡ n + suc w
  pub log : HasLog n (suc n) k

-- `n` requests are answered and `w` are waiting.
abbrev pub IsAt : ℕ → ℕ → Core → Type 0
IsAt n zero k = IsResting n k
IsAt n (suc w) k = IsBusy n w k

abbrev heap_of : Reply → Core → ℕ → Reply
heap_of r k q = if q == k.allocated then r else k.heap q

abbrev first_submitted : Reply → Core → Core
first_submitted r k = record {
  active = some k.allocated;
  queued = k.queued;
  at_rest = false;
  timed = true;
  heap = heap_of r k;
  allocated = suc k.allocated;
  sent = k.sent ++ request_frame (heap_of r k k.allocated) ∷ [];
  announced = k.announced;
}

abbrev later_submitted : Reply → Core → Core
later_submitted r k = record k {
  queued = k.queued ++ k.allocated ∷ [];
  heap = heap_of r k;
  allocated = suc k.allocated;
}

core_if : (b : Bool) (c d : Client) → core (if b then c else d) ≡ (if b then core c else core d)
core_if true c d = refl
core_if false c d = refl

submit-core :
    (r : Reply) (c : Client)
    → core (submit r c)
      ≡ (if is_idle c.state then first_submitted r (core c) else later_submitted r (core c))
unfolding submit send
submit-core r c = core_if (is_idle c.state) _ _

heap_of-HasLog :
    (r : Reply) (n m : ℕ) (k : Core)
    → r.finished ≡ false
    → n < suc k.allocated
    → m < suc k.allocated
    → HasLog n m k
    → (frames (heap_of r k) m ≡ frames k.heap m)
      × ((p : ℕ) → p < suc k.allocated → (heap_of r k p).finished ≡ ltb p n)
heap_of-HasLog r n m k fresh ln lm log = (
  frames-cong (heap_of r k) k.heap m (λ p l. ground arith),
  λ p l. ground (arith, log.finished p),
)

first_submitted-IsBusy :
    (r : Reply) (n : ℕ) (k : Core)
    → r.finished ≡ false
    → IsResting n k
    → IsBusy n 0 (first_submitted r k)
unfolding frames from
first_submitted-IsBusy r n k fresh i =
    let same =
      heap_of-HasLog r n n k fresh (omega (arith, i.all_made)) (omega (arith, i.all_made)) i.log in
    record {
      activated = ap some i.all_made;
      queue = i.unqueued;
      reading = refl;
      watched = refl;
      made = omega (arith, i.all_made);
      log = record {
        answered = i.log.answered;
        finished = same.1;
        on_line =
            ap₂ (λ a p. a ++ request_frame (heap_of r k p) ∷ []) (i.log.on_line ∙ sym same.0)
              i.all_made;
      };
    }

later_submitted-IsBusy :
    (r : Reply) (n w : ℕ) (k : Core)
    → r.finished ≡ false
    → IsBusy n w k
    → IsBusy n (suc w) (later_submitted r k)
later_submitted-IsBusy r n w k fresh i =
    let same =
      heap_of-HasLog r n (suc n) k fresh (omega (arith, i.made)) (omega (arith, i.made)) i.log in
    let made : k.allocated ≡ suc n + w = omega (arith, i.made) in
    record {
      activated = i.activated;
      queue = ap₂ (λ q p. q ++ p ∷ []) i.queue made ∙ from-snoc (suc n) w;
      reading = i.reading;
      watched = i.watched;
      made = omega (arith, i.made);
      log = record {
        answered = i.log.answered;
        finished = same.1;
        on_line = i.log.on_line ∙ sym same.0;
      };
    }

pub submit-IsAt :
    (r : Reply) (n w : ℕ) (c : Client)
    → r.finished ≡ false
    → IsAt n w (core c)
    → IsAt n (suc w) (core (submit r c))
submit-IsAt r n zero c fresh i =
    subst (IsBusy n 0)
      (sym (
        submit-core r c
        ∙ ap (λ b. if b then first_submitted r (core c) else later_submitted r (core c)) i.resting))
      (first_submitted-IsBusy r n (core c) fresh i)
submit-IsAt r n (suc w) c fresh i =
    subst (IsBusy n (suc w))
      (sym (
        submit-core r c
        ∙ ap (λ b. if b then first_submitted r (core c) else later_submitted r (core c)) i.reading))
      (later_submitted-IsBusy r n w (core c) fresh i)

settled-log :
    (f : Reply → Reply) (n m : ℕ) (k : Core)
    → IsResult f
    → n < k.allocated
    → HasLog n m k
    → (announced_with n k ≡ upto (suc n))
      × ((p : ℕ) → p < k.allocated → (heap_with f n k p).finished ≡ ltb p (suc n))
      × (frames (heap_with f n k) m ≡ frames k.heap m)
unfolding upto
settled-log f n m k h l log =
    let open_still : (k.heap n).finished ≡ false = ground (arith, log.finished n) in
    (
      ap (λ b. if b then k.announced else k.announced ++ n ∷ []) open_still
          ∙ ap (λ a. a ++ n ∷ []) log.answered,
      λ p lp. ground (arith, log.finished p, h.finishes (k.heap n)),
      frames-cong (heap_with f n k) k.heap m (λ p lp. ground (arith, h.frame (k.heap n))),
    )

settle_next-IsAt :
    (f : Reply → Reply) (n w : ℕ) (q : List ℕ) (k : Core)
    → IsResult f
    → q ≡ from (suc n) w
    → IsBusy n w k
    → IsAt (suc n) w (settle_next f n q k)
unfolding frames from
settle_next-IsAt f n zero q k h e i =
    let after = settled-log f n (suc n) k h (omega (arith, i.made)) i.log in
    subst (λ l. IsResting (suc n) (settle_next f n l k)) (sym e)
      (record {
        inactive = refl;
        unqueued = i.queue;
        resting = refl;
        all_made = omega (arith, i.made);
        log = record {
          answered = after.0;
          finished = after.1;
          on_line = i.log.on_line ∙ sym after.2;
        };
      })
settle_next-IsAt f n (suc w) q k h e i =
    let after = settled-log f n (suc n) k h (omega (arith, i.made)) i.log in
    let next = request_frame (heap_with f n k (suc n)) in
    subst (λ l. IsBusy (suc n) w (settle_next f n l k)) (sym e)
      (record {
        activated = refl;
        queue = refl;
        reading = refl;
        watched = refl;
        made = omega (arith, i.made);
        log = record {
          answered = after.0;
          finished = after.1;
          on_line = ap (λ a. a ++ next ∷ []) (i.log.on_line ∙ sym after.2);
        };
      })

pub settle-IsAt :
    (f : Reply → Reply) (n w : ℕ) (k : Core)
    → IsResult f
    → IsAt n (suc w) k
    → IsAt (suc n) w (settle f n k)
settle-IsAt f n w k h i = settle_next-IsAt f n w k.queued k h i.queue i
