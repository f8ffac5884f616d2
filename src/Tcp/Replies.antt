-- ===== src/Tcp/Replies.antt =====
-- The life of the replies of modbus_tcp_client.cpp and modbus_reply.cpp over any history of events.
use dbus_fronius.Base.{
  AllValues, ℕ, suc, ◌+◌, ◌≤◌, ◌<◌, ◌≡◌, refl, ap, ◌∙◌, true, List, [], ◌∷◌, ◌++◌, ◌&&◌, arith, ltb,
  ◌==◌, if◌then◌else◌,
}
use dbus_fronius.Tcp.{
  Reply, Client, Signal, connected, disconnected, finished, is_finished, set_registers, set_error,
  resolve,
}

-- How often a reply has announced its result.
unfoldable pub announced : ℕ → List Signal → ℕ
announced p [] = 0
announced p (connected ∷ s) = announced p s
announced p (disconnected ∷ s) = announced p s
announced p (finished q ∷ s) = if q == p then suc (announced p s) else announced p s

-- What is pending was allocated, and a reply has announced its result exactly once if it is
-- finished, and otherwise never.
pub record IsValid (c : Client) : Type 0 where
  pub pending_allocated : AllValues (λ p. p < c.allocated) c.pending
  pub once :
      (p : ℕ)
      → announced p c.signals ≡ (if ltb p c.allocated && is_finished (c.heap p) then 1 else 0)

-- The step from one client to a later one keeps the results that there are.
pub record Keeps (c d : Client) : Type 0 where
  pub grows : c.allocated ≤ d.allocated
  pub kept : (p : ℕ) → p < c.allocated → is_finished (c.heap p) ≡ true → d.heap p ≡ c.heap p

-- Both at once: what an event does to a valid client.
abbrev pub Good : Client → Client → Type 0
Good c d = IsValid d × Keeps c d

pub announced-append :
    (p : ℕ) (s t : List Signal) → announced p (s ++ t) ≡ announced p s + announced p t
unfolding announced
announced-append p [] t = omega arith
announced-append p (connected ∷ s) t = announced-append p s t
announced-append p (disconnected ∷ s) t = announced-append p s t
announced-append p (finished q ∷ s) t = ground (arith, announced-append p s t)

pub refl-Keeps : (c : Client) → Keeps c c
refl-Keeps c = record { grows = omega arith; kept = λ p l h. refl }

pub trans-Keeps : (c d e : Client) → Keeps c d → Keeps d e → Keeps c e
trans-Keeps c d e k l = record {
  grows = omega (arith, k.grows, l.grows);
  kept = λ p lt h.
      l.kept p (omega (arith, k.grows)) (ap is_finished (k.kept p lt h) ∙ h) ∙ k.kept p lt h;
}

-- A function that a `Reply` method stands for: it changes a pending reply only, and finishes it.
pub record IsResult (f : Reply → Reply) : Type 0 where
  pub fixed : (r : Reply) → is_finished r ≡ true → f r ≡ r
  pub finishes : (r : Reply) → is_finished (f r) ≡ true

pub set_registers-IsResult : (values : List ℕ) → IsResult (λ r. set_registers r values)
unfolding set_registers
set_registers-IsResult values = record { fixed = λ r h. ground arith; finishes = λ r. ground arith }

pub set_error-IsResult : (e : ℕ) → IsResult (λ r. set_error r e)
unfolding set_error
set_error-IsResult e = record { fixed = λ r h. ground arith; finishes = λ r. ground arith }

pub resolve-Keeps : (f : Reply → Reply) (p : ℕ) (c : Client) → IsResult f → Keeps c (resolve f p c)
unfolding resolve
resolve-Keeps f p c i = record {
  grows = omega arith;
  kept = λ q lt h. ground (arith, i.fixed (c.heap q));
}

pub resolve-IsValid :
    (f : Reply → Reply) (p : ℕ) (c : Client)
    → IsResult f
    → p < c.allocated
    → IsValid c
    → IsValid (resolve f p c)
unfolding resolve announced
resolve-IsValid f p c i lt v = record {
  pending_allocated = v.pending_allocated;
  once = λ q. ground (
    arith,
    v.once q,
    i.fixed (c.heap q),
    i.finishes (c.heap q),
    announced-append q c.signals (finished p ∷ []),
  );
}
