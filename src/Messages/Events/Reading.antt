-- ===== src/Messages/Events/Reading.antt =====
-- The parsers of notification events: `NotifyEvent.from_stream_with_type` of src/nagus/pl_messages.py
-- and the `from_stream` of each subclass.
use nagus.Prelude.{Bytes, if◌then◌else◌, [], ◌∷◌, Bool, true, Option, none, some}
use nagus.Prelude.Int.{ℤ, pos}
use nagus.Stream.{
  value_error, attribute_error, not_implemented, Reader, pure, raise, ◌>>=◌, ◌>>◌, check, read_bool,
}
use nagus.Stream.Enums.{member, ◌==ℤ◌}
use nagus.Stream.Format.{i32, f32, stream_unpack}
use nagus.Structs.SafeString.{read_safe_string}
use nagus.Structs.Uoid.{Uoid, read_key}
use nagus.Messages.Enums.General.{
  VariableType, variable_type, float, key, int, null, stage_event, offer_event,
}
use nagus.Messages.Events.{
  VariableValue, int_value, float_value, uoid_value, no_value, NotifyEvent, collision, picked,
  variable, facing, contained, activate, callback, responder_state, multi_stage, spawned, coop,
  offer_linking_book, picked_event_footer, facing_event_footer, activate_event,
  multi_stage_event_header, coop_event, offer_linking_book_event_footer,
}

unfoldable pub read_collision : Reader NotifyEvent
read_collision = do
  enter ← read_bool
  hitter ← read_key
  hittee ← read_key
  pure (collision enter hitter hittee)

unfoldable pub read_picked : Reader NotifyEvent
read_picked = do
  picker ← read_key
  picked_key ← read_key
  (enabled, (hit_x, (hit_y, hit_z))) ← stream_unpack picked_event_footer
  pure (picked picker picked_key enabled (hit_x, hit_y, hit_z))

-- The number of a variable: a float, or an int for the other types.
unfoldable pub read_number : VariableType → Reader VariableValue
read_number float = stream_unpack (f32 ∷ []) >>= λ v. pure (float_value v)
read_number _ = stream_unpack (i32 ∷ []) >>= λ v. pure (int_value v)

abbrev is_zero : VariableValue → Bool
is_zero (int_value v) = v ==ℤ pos 0
is_zero _ = true

-- The tests and the choice of the value after all fields are read.
unfoldable pub variable_of : Bytes → VariableType → VariableValue → Option Uoid → Reader NotifyEvent
variable_of name float number none = pure (variable name float number)
variable_of name int number none = pure (variable name int number)
variable_of name key number (some u) = do
  check (is_zero number) value_error
  pure (variable name key (uoid_value u))
variable_of name key number none = do
  check (is_zero number) value_error
  pure (variable name key no_value)
variable_of name null number none = do
  check (is_zero number) value_error
  pure (variable name null no_value)
variable_of name _ number (some _) = raise value_error

unfoldable pub read_variable : Reader NotifyEvent
read_variable = do
  name ← read_safe_string
  data_type ← stream_unpack (i32 ∷ [])
  data_type ← member variable_type data_type
  number ← read_number data_type
  key_read ← read_key
  variable_of name data_type number key_read

unfoldable pub read_facing : Reader NotifyEvent
read_facing = do
  facer ← read_key
  facee ← read_key
  (dot_product, enabled) ← stream_unpack facing_event_footer
  pure (facing facer facee dot_product enabled)

unfoldable pub read_contained : Reader NotifyEvent
read_contained = do
  contained_key ← read_key
  container ← read_key
  entering ← read_bool
  pure (contained contained_key container entering)

unfoldable pub read_activate : Reader NotifyEvent
read_activate = do
  (active, activated) ← stream_unpack activate_event
  check active value_error
  pure (activate activated)

unfoldable pub read_multi_stage : Reader NotifyEvent
read_multi_stage = do
  (stage, event) ← stream_unpack multi_stage_event_header
  avatar ← read_key
  event ← member stage_event event
  pure (multi_stage stage event avatar)

unfoldable pub read_spawned : Reader NotifyEvent
read_spawned = do spawner ← read_key; spawnee ← read_key; pure (spawned spawner spawnee)

unfoldable pub read_coop : Reader NotifyEvent
read_coop = do
  (initiator_ki_number, serial_number) ← stream_unpack coop_event
  pure (coop initiator_ki_number serial_number)

-- `OfferLinkingBookEvent.from_stream`, which `from_stream_with_type` calls with a number in place
-- of the stream.
unfoldable pub read_offer_linking_book : Reader NotifyEvent
read_offer_linking_book = do
  offerer ← read_key
  (event, offeree_ki_number) ← stream_unpack offer_linking_book_event_footer
  event ← member offer_event event
  pure (offer_linking_book offerer event offeree_ki_number)

-- The class of an event by its number. An int, which the last branch calls `read` on, has no such
-- method.
unfoldable pub read_event : ℤ → Reader NotifyEvent
read_event typenum =
    if typenum ==ℤ pos 1
    then read_collision
    else if typenum ==ℤ pos 2
    then read_picked
    else if typenum ==ℤ pos 4
    then read_variable
    else if typenum ==ℤ pos 5
    then read_facing
    else if typenum ==ℤ pos 6
    then read_contained
    else if typenum ==ℤ pos 7
    then read_activate
    else if typenum ==ℤ pos 8
    then (stream_unpack (i32 ∷ []) >>= λ callback_type. pure (callback callback_type))
    else if typenum ==ℤ pos 9
    then (stream_unpack (i32 ∷ []) >>= λ state. pure (responder_state state))
    else if typenum ==ℤ pos 10
    then read_multi_stage
    else if typenum ==ℤ pos 11
    then read_spawned
    else if typenum ==ℤ pos 13
    then read_coop
    else if typenum ==ℤ pos 14
    then raise attribute_error
    else raise not_implemented

-- `NotifyEvent.from_stream_with_type`
unfoldable pub from_stream_with_type : Reader NotifyEvent
from_stream_with_type = stream_unpack (i32 ∷ []) >>= read_event
