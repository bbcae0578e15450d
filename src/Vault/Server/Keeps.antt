-- ===== src/Vault/Server/Keeps.antt =====
-- Invariants of actions, and one rule for each way to build an action.
use nagus.Prelude.{
  if◌then◌else◌, ◌≡◌, refl, ℕ, List, [], ◌∷◌, Bool, true, false, Option, none, some,
}
use nagus.Stream.{Result, ok, err}
use nagus.Vault.Database.{Database, Statement, Outcome, returned, raised, VaultError}
use nagus.Vault.Database.Integrity.{HasIntegrity, Preserves}
use nagus.Vault.Server.{
  Notification, ServerState, Action, pure, raise, ◌>>=◌, continue, on_value, for_each, lift, handle,
  except_with, select, commit, execute, now, uuid4, notify_connections, stop_caring,
}

-- `m` leaves a database that meets its constraints, whether it returns or raises.
pub record Keeps {ℓ} {A : Type ℓ} (m : Action A) : Type ℓ where
  pub at : (s : ServerState) → HasIntegrity s.db → HasIntegrity (m s).1.db

module _ {ℓ} {A : Type ℓ} where
  pub Keeps-pure : (a : A) → Keeps (pure a)
  unfolding pure
  Keeps-pure a = record { at = λ s h. h }

  pub Keeps-raise : (e : VaultError) → Keeps (raise {A = A} e)
  unfolding raise
  Keeps-raise e = record { at = λ s h. h }

  pub Keeps-select : (query : Database → A) → Keeps (select query)
  unfolding select
  Keeps-select query = record { at = λ s h. h }

  pub Keeps-if : (test : Bool) (m n : Action A) → Keeps m → Keeps n → Keeps (if test then m else n)
  Keeps-if true m n k l = k
  Keeps-if false m n k l = l

  handle-Keeps :
      (outcome : Outcome A) (h : VaultError → Action A)
      → ((e : VaultError) → Keeps (h e))
      → Keeps (handle outcome h)
  handle-Keeps (returned a) h k = record { at = λ s p. p }
  handle-Keeps (raised e) h k = k e

  pub Keeps-except_with :
      (m : Action A) (h : VaultError → Action A)
      → Keeps m
      → ((e : VaultError) → Keeps (h e))
      → Keeps (except_with m h)
  unfolding except_with
  Keeps-except_with m h k l = record {
    at = λ s p. let (outcome, s') = m s in (handle-Keeps outcome h l).at s' (k.at s p);
  }

module _ {ℓ κ} {A : Type ℓ} {B : Type κ} where
  continue-Keeps :
      (outcome : Outcome A) (k : A → Action B)
      → ((a : A) → Keeps (k a))
      → Keeps (continue outcome k)
  continue-Keeps (returned a) k h = h a
  continue-Keeps (raised e) k h = record { at = λ s p. p }

  pub Keeps-bind :
      (m : Action A) (k : A → Action B) → Keeps m → ((a : A) → Keeps (k a)) → Keeps (m >>= k)
  unfolding ◌>>=◌
  Keeps-bind m k h l = record {
    at = λ s p. let (outcome, s') = m s in (continue-Keeps outcome k l).at s' (h.at s p);
  }

  pub Keeps-option :
      (o : Option A) (m : Action B) (k : A → Action B)
      → Keeps m
      → ((a : A) → Keeps (k a))
      → Keeps (on_value o m k)
  Keeps-option none m k h l = h
  Keeps-option (some a) m k h l = l a

module _ {ℓ} {A : Type ℓ} where
  pub Keeps-for_each :
      (xs : List A) (body : A → Action (Unit {0}))
      → ((x : A) → Keeps (body x))
      → Keeps (for_each xs body)
  unfolding for_each
  Keeps-for_each [] body h = Keeps-pure tt
  Keeps-for_each (x ∷ xs) body h = Keeps-bind _ _ (h x) (λ _. Keeps-for_each xs body h)

  pub Keeps-lift : (r : Result A) → Keeps (lift r)
  Keeps-lift (ok a) = Keeps-pure a
  Keeps-lift (err e) = Keeps-raise _

commit_keeps :
    {A : Type 0} (s : ServerState) (outcome : Outcome (A × Database))
    → ((a : A) (db : Database) → outcome ≡ returned (a, db) → HasIntegrity db)
    → HasIntegrity s.db
    → HasIntegrity (commit outcome s).1.db
commit_keeps s (returned (a, db)) k h = k a db refl
commit_keeps s (raised e) k h = h

pub Keeps-execute :
    {A : Type 0} (statement : Statement A) → Preserves statement → Keeps (execute statement)
unfolding execute
Keeps-execute statement p = record {
  at = λ s h. commit_keeps s (statement s.db) (λ a db e. p s.db a db e h) h;
}

pub Keeps-now : Keeps now
unfolding now
Keeps-now = record { at = λ s h. h }

pub Keeps-uuid4 : Keeps uuid4
unfolding uuid4
Keeps-uuid4 = record { at = λ s h. h }

pub Keeps-notify_connections :
    (node_id : ℕ) (notification : Notification) → Keeps (notify_connections node_id notification)
unfolding notify_connections
Keeps-notify_connections node_id notification = record { at = λ s h. h }

pub Keeps-stop_caring : (node_id : ℕ) → Keeps (stop_caring node_id)
unfolding stop_caring
Keeps-stop_caring node_id = record { at = λ s h. h }

pub ruleset keeps_rules = (
  Keeps-pure, Keeps-raise, Keeps-select, Keeps-if, Keeps-except_with, Keeps-bind, Keeps-option,
  Keeps-for_each, Keeps-lift, Keeps-now, Keeps-uuid4, Keeps-notify_connections, Keeps-stop_caring,
)
