-- ===== src/Auth/Replies.antt =====
-- That the handlers of src/nagus/auth_server.py answer the requests on the vault.
use nagus.Prelude.{
  Bytes, ◌≡◌, ◌∙◌, ℕ, List, [], ◌∷◌, ◌++◌, if◌then◌else◌, Bool, true, false, Option, none, some,
  append-nil, ◌⊎◌, inl, inr, refl,
}
use nagus.Stream.{ok, err, Error}
use nagus.Stream.Reads.{Result-cases}
use nagus.Vault.Database.{VaultError, Outcome, returned, raised, python_error}
use nagus.Vault.Server.{
  replied, Connection, ServerState, Action, pure, raise, ◌>>=◌, ◌>>◌, on_value, uuid4,
}
use nagus.Auth.{NetError, Reply, reply_trans_id}
use nagus.Auth.Packing.{pack_reply}
use nagus.Auth.Handling.{post, respond, disconnect_with_reason, start_caring, conclude, attempt}
use nagus.Auth.Quiet.{replies, replies-append, Quiet, Quiet-pure, Quiet-raise, Quiet-if, Quiet-bind}
use nagus.Auth.Quiet.Nodes.{
  find_vault_nodes-Quiet, create_vault_node-Quiet, update_vault_node-Quiet,
  add_vault_node_ref-Quiet, remove_vault_node_ref-Quiet, refs_recursive-Quiet,
  create_age_instance-Quiet,
}
use nagus.Auth.Quiet.Players.{delete_avatar-Quiet}

module _ (self : Connection) (trans_id : ℕ) where
  -- `m` sends one reply, to the client and with the transaction ID; or that reply cannot be packed,
  -- and `m` raises the exception of the packing and sends none.
  abbrev Answered : Action (Unit {0}) → ServerState → Reply → Type 0
  Answered m s reply =
      ((packed : Bytes) × (pack_reply reply ≡ ok packed)
        × (replies (m s).1.sent ≡ replies s.sent ++ ((self.token, reply) ∷ [])))
      ⊎ ((e : Error) × (pack_reply reply ≡ err e)
          × ((m s).0 ≡ raised (python_error e))
          × (replies (m s).1.sent ≡ replies s.sent))

  record Answers (m : Action (Unit {0})) : Type 0 where
    at :
        (s : ServerState) → (reply : Reply) × (reply_trans_id reply ≡ trans_id) × Answered m s reply

  Answers-respond : (reply : Reply) → reply_trans_id reply ≡ trans_id → Answers (respond self reply)
  unfolding respond post ◌>>=◌ pure raise
  Answers-respond reply e = record {
    at = λ s. (
      reply,
      e,
      elim (Result-cases (pack_reply reply)) [
        | inl (packed, p) ↦ inl (packed, p, rw p (replies-append s.sent _))
        | inr (x, p) ↦ inr (x, p, rw p refl, rw p refl)
      ],
    );
  }

  Answers-refuse :
      (reply : Reply) (reason : NetError)
      → reply_trans_id reply ≡ trans_id
      → Answers (do respond self reply; disconnect_with_reason self reason)
  unfolding respond post disconnect_with_reason ◌>>=◌ pure raise
  Answers-refuse reply reason e = record {
    at = λ s. (
      reply,
      e,
      elim (Result-cases (pack_reply reply)) [
        | inl (packed, p) ↦ inl (
          packed,
          p,
          rw p (
              replies-append (s.sent ++ ((self.token, replied reply) ∷ [])) _
              ∙ append-nil _
              ∙ replies-append s.sent _),
        )
        | inr (x, p) ↦ inr (x, p, rw p refl, rw p refl)
      ],
    );
  }

  Answers-start_caring :
      (node_ids : List ℕ) (m : Action (Unit {0}))
      → Answers m
      → Answers (do start_caring self node_ids; m)
  unfolding start_caring ◌>>=◌
  Answers-start_caring node_ids m h = record { at = λ s. h.at _ }

  module _ {ℓ} {A : Type ℓ} where
    conclude-Answers :
        (outcome : Outcome A) (h : VaultError → Action (Unit {0})) (k : A → Action (Unit {0}))
        → ((e : VaultError) → Answers (h e))
        → ((a : A) → Answers (k a))
        → Answers (conclude outcome h k)
    conclude-Answers (returned a) h k p q = q a
    conclude-Answers (raised e) h k p q = p e

    Answers-attempt :
        (m : Action A) (h : VaultError → Action (Unit {0})) (k : A → Action (Unit {0}))
        → Quiet m
        → ((e : VaultError) → Answers (h e))
        → ((a : A) → Answers (k a))
        → Answers (attempt m h k)
    unfolding attempt
    Answers-attempt m h k l p q = record {
      at = λ s.
          let (outcome, s') = m s in
          let (reply, i, a) = (conclude-Answers outcome h k p q).at s' in
          (
            reply,
            i,
            elim a [
              | inl (packed, e, r) ↦ inl (packed, e, rw (r, l.at s))
              | inr (x, e, o, r) ↦ inr (x, e, o, rw (r, l.at s))
            ],
          );
    }

    Answers-option :
        (o : Option A) (m : Action (Unit {0})) (k : A → Action (Unit {0}))
        → Answers m
        → ((a : A) → Answers (k a))
        → Answers (on_value o m k)
    Answers-option none m k h l = h
    Answers-option (some a) m k h l = l a

  Answers-if :
      (test : Bool) (m n : Action (Unit {0}))
      → Answers m
      → Answers n
      → Answers (if test then m else n)
  Answers-if true m n h k = h
  Answers-if false m n h k = k

  Answers-uuid :
      (test : Bool) (uuid : Bytes) (k : Bytes → Action (Unit {0}))
      → ((uuid' : Bytes) → Answers (k uuid'))
      → Answers ((if test then uuid4 else pure uuid) >>= k)
  unfolding uuid4 pure ◌>>=◌
  Answers-uuid true uuid k h = record { at = λ s. (h _).at _ }
  Answers-uuid false uuid k h = record { at = λ s. (h uuid).at s }

  ruleset answer_rules = (
    Answers-respond, Answers-refuse, Answers-start_caring, Answers-attempt, Answers-option,
    Answers-uuid, Quiet-pure, Quiet-raise, Quiet-if, Quiet-bind, find_vault_nodes-Quiet,
    create_vault_node-Quiet, update_vault_node-Quiet, add_vault_node_ref-Quiet,
    remove_vault_node_ref-Quiet, refs_recursive-Quiet, create_age_instance-Quiet,
    delete_avatar-Quiet, Answers-if,
  )
