-- ===== src/Messages/Events/RoundTrip.antt =====
-- Writing and reading the notification events of src/nagus/pl_messages.py.
use nagus.Prelude.{◌≡◌, refl, [], ◌∷◌, Bytes, ◌++◌, append_assoc, ◌∙◌, true, Option, ℕ}
use nagus.Prelude.Int.{pos}
use nagus.Stream.{value_error, ok, err, attribute_error}
use nagus.Stream.Enums.{Reads-member}
use nagus.Stream.Format.{i32, Reads-format}
use nagus.Stream.Reads.{
  Reads, Raises, Reads-bind, Reads-last, Reads-then, Reads-check, Reads-bool, Reads-pure, ⊕-Raises,
  ⊕-eq-ok, bind-ok,
}
use nagus.Structs.Uoid.{Uoid}
use nagus.Structs.Uoid.Reads.{KeyIsValid, key-Reads}
use nagus.Messages.Enums.General.{VariableType, key, OfferEvent, stage_event, offer_event}
use nagus.Messages.Events.{
  VariableValue, int_value, float_value, uoid_value, NotifyEvent, collision, picked, variable,
  facing, contained, activate, callback, responder_state, multi_stage, spawned, coop,
  offer_linking_book, event_type, picked_event_footer, facing_event_footer, activate_event,
  multi_stage_event_header, coop_event, offer_linking_book_event_footer,
}
use nagus.Messages.Events.Reading.{
  read_collision, read_picked, read_facing, read_contained, read_activate, read_multi_stage,
  read_spawned, read_coop, read_offer_linking_book, from_stream_with_type, read_event,
}
use nagus.Messages.Events.Writing.{write_variable_key, write_event, write_with_type}

-- An event of a class whose objects are written and read back, with valid keys.
abbrev pub EventIsValid : NotifyEvent → Type 0
EventIsValid (collision _ hitter hittee) = KeyIsValid hitter × KeyIsValid hittee
EventIsValid (picked picker picked_key _ _) = KeyIsValid picker × KeyIsValid picked_key
EventIsValid (variable _ _ _) = ⊥
EventIsValid (facing facer facee _ _) = KeyIsValid facer × KeyIsValid facee
EventIsValid (contained contained_key container _) = KeyIsValid contained_key × KeyIsValid container
EventIsValid (multi_stage _ _ avatar) = KeyIsValid avatar
EventIsValid (spawned spawner spawnee) = KeyIsValid spawner × KeyIsValid spawnee
EventIsValid (offer_linking_book _ _ _) = ⊥
EventIsValid _ = Unit

-- The last step of `VariableEvent.write` raises an exception whatever the event.
variable_key-Raises : (t : VariableType) (v : VariableValue) → Raises (write_variable_key t v)
unfolding write_variable_key
variable_key-Raises key (int_value v) = (value_error, refl)
variable_key-Raises key (float_value v) = (value_error, refl)
variable_key-Raises key _ = (attribute_error, refl)
variable_key-Raises _ (uoid_value u) = (value_error, refl)
variable_key-Raises _ _ = (attribute_error, refl)

-- `write_with_type` of a `VariableEvent` raises an exception, whatever its name, type and
-- value.
pub variable-Raises :
    (name : Bytes) (t : VariableType) (v : VariableValue)
    → Raises (write_with_type (variable name t v))
unfolding write_with_type write_event
variable-Raises name t v =
    ⊕-Raises _ _ (⊕-Raises _ _ (⊕-Raises _ _ (⊕-Raises _ _ (variable_key-Raises t v))))

-- The part of an event behind its number.
body-Reads :
    (e : NotifyEvent) → EventIsValid e → Reads (write_event e) (read_event (pos (event_type e))) e
unfolding read_event write_event
body-Reads (collision enter hitter hittee) (v, v') =
    unfold read_collision in
    Reads-bind _ (Reads-bool enter)
      (Reads-bind _ (key-Reads hitter v) (Reads-last _ (key-Reads hittee v') refl))
body-Reads (picked picker picked_key enabled p) (v, v') =
    unfold read_picked in
    Reads-bind _ (key-Reads picker v) (
      Reads-bind _ (key-Reads picked_key v')
        (Reads-last _ (Reads-format picked_event_footer _) refl))
body-Reads (variable name t value) v = absurd v
body-Reads (facing facer facee product enabled) (v, v') =
    unfold read_facing in
    Reads-bind _ (key-Reads facer v)
      (Reads-bind _ (key-Reads facee v') (Reads-last _ (Reads-format facing_event_footer _) refl))
body-Reads (contained contained_key container entering) (v, v') =
    unfold read_contained in
    Reads-bind _ (key-Reads contained_key v)
      (Reads-bind _ (key-Reads container v') (Reads-last _ (Reads-bool entering) refl))
body-Reads (activate activated) v =
    unfold read_activate in
    Reads-then _ (Reads-format activate_event (true, activated))
      (Reads-check _ _ refl (Reads-pure (activate activated)))
body-Reads (callback t) v = Reads-last _ (Reads-format (i32 ∷ []) t) refl
body-Reads (responder_state state) v = Reads-last _ (Reads-format (i32 ∷ []) state) refl
body-Reads (multi_stage stage event avatar) v =
    unfold read_multi_stage in
    Reads-bind _ (Reads-format multi_stage_event_header _)
      (Reads-then _ (key-Reads avatar v) (Reads-member stage_event _ event (Reads-pure _)))
body-Reads (spawned spawner spawnee) (v, v') =
    unfold read_spawned in
    Reads-bind _ (key-Reads spawner v) (Reads-last _ (key-Reads spawnee v') refl)
body-Reads (coop initiator serial_number) v =
    unfold read_coop in Reads-last _ (Reads-format coop_event _) refl
body-Reads (offer_linking_book offerer event ki_number) v = absurd v

-- A notification event with valid keys, of any class but `VariableEvent` and
-- `OfferLinkingBookEvent`: what `write_with_type` writes, where it returns,
-- `from_stream_with_type` reads back as the same value, whatever follows it, and a proper
-- prefix of that makes the reader raise an exception.
pub event-Reads :
    (e : NotifyEvent) → EventIsValid e → Reads (write_with_type e) from_stream_with_type e
unfolding write_with_type from_stream_with_type
event-Reads e v = Reads-bind _ (Reads-format (i32 ∷ []) _) (body-Reads e v)

-- What `write_with_type` wrote of an `OfferLinkingBookEvent`, `from_stream_with_type` never
-- reads: it raises AttributeError, whatever follows.
pub offer_linking_book-unreadable :
    (offerer : Option Uoid) (event : OfferEvent) (ki_number : ℕ) (out rest : Bytes)
    → write_with_type (offer_linking_book offerer event ki_number) ≡ ok out
    → from_stream_with_type (out ++ rest) ≡ err attribute_error
unfolding write_with_type from_stream_with_type
offer_linking_book-unreadable offerer event ki_number out rest h =
    let (o, o', p, p', q) = ⊕-eq-ok _ _ out h in
    rw (q, append_assoc o o' rest)
      (bind-ok _ read_event _ ((Reads-format (i32 ∷ []) (pos 14)).whole o (o' ++ rest) p)
        ∙ (unfold read_event in refl))

-- An `OfferLinkingBookEvent` with a valid offerer: what `write_event` writes of it, where it
-- returns, `read_offer_linking_book` reads back as the same value, whatever follows it, and a
-- proper prefix of that makes the reader raise an exception.
pub offer_linking_book-Reads :
    (offerer : Option Uoid) (event : OfferEvent) (ki_number : ℕ)
    → KeyIsValid offerer
    → Reads
        (write_event (offer_linking_book offerer event ki_number))
        read_offer_linking_book
        (offer_linking_book offerer event ki_number)
unfolding write_event read_offer_linking_book
offer_linking_book-Reads offerer event ki_number v = Reads-bind _ (key-Reads offerer v) (
    Reads-then _ (Reads-format offer_linking_book_event_footer _)
      (Reads-member offer_event _ event (Reads-pure _)))
