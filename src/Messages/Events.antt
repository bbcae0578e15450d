-- ===== src/Messages/Events.antt =====
-- The notification events of src/nagus/pl_messages.py (`NotifyEvent` and its subclasses).
pub mod Reading
pub mod Writing
pub mod RoundTrip
use nagus.Prelude.{Bytes, ◌==◌, if◌then◌else◌, ℕ, [], ◌∷◌, Bool, true, not, Option, none, some}
use nagus.Prelude.Int.{ℤ, pos}
use nagus.Stream.{
  ok, err, value_error, attribute_error, not_implemented, Reader, pure, raise, ◌>>=◌, ◌>>◌, check,
  Writer, ◌⊕◌, read_bool, write_bool,
}
use nagus.Stream.Enums.{member, ◌==ℤ◌}
use nagus.Stream.Format.{Format, u16, u32, i32, f32, flag, pack, stream_unpack}
use nagus.Structs.SafeString.{read_safe_string, write_safe_string}
use nagus.Structs.Uoid.{Uoid, read_key, write_key}
use nagus.Messages.Enums.General.{
  VariableType, variable_type, float, key, int, null, StageEvent, stage_event, OfferEvent,
  offer_event,
}

abbrev pub picked_event_footer : Format
picked_event_footer = flag ∷ f32 ∷ f32 ∷ f32 ∷ []

abbrev pub facing_event_footer : Format
facing_event_footer = f32 ∷ flag ∷ []

abbrev pub activate_event : Format
activate_event = flag ∷ flag ∷ []

abbrev pub multi_stage_event_header : Format
multi_stage_event_header = i32 ∷ i32 ∷ []

abbrev pub coop_event : Format
coop_event = u32 ∷ u16 ∷ []

abbrev pub offer_linking_book_event_footer : Format
offer_linking_book_event_footer = i32 ∷ u32 ∷ []

-- A point's three coordinates.
abbrev pub Point3 : Type 0
Point3 = ℕ × ℕ × ℕ

-- `VariableEvent.value`: an int, a float, a UOID or None.
pub data VariableValue : Type 0 where
  int_value : ℤ → VariableValue
  float_value : ℕ → VariableValue
  uoid_value : Uoid → VariableValue
  no_value : VariableValue

-- One constructor for each subclass, with its fields in the order of `__init__`.
pub data NotifyEvent : Type 0 where
  collision : (enter : Bool) (hitter hittee : Option Uoid) → NotifyEvent
  picked : (picker picked : Option Uoid) (enabled : Bool) (hit_point : Point3) → NotifyEvent
  variable : (name : Bytes) (data_type : VariableType) (value : VariableValue) → NotifyEvent
  facing : (facer facee : Option Uoid) (dot_product : ℕ) (enabled : Bool) → NotifyEvent
  contained : (contained container : Option Uoid) (entering : Bool) → NotifyEvent
  activate : (activate : Bool) → NotifyEvent
  callback : (callback_type : ℤ) → NotifyEvent
  responder_state : (state : ℤ) → NotifyEvent
  multi_stage : (stage : ℤ) (event : StageEvent) (avatar : Option Uoid) → NotifyEvent
  spawned : (spawner spawnee : Option Uoid) → NotifyEvent
  coop : (initiator_ki_number serial_number : ℕ) → NotifyEvent
  offer_linking_book :
      (offerer : Option Uoid) (event : OfferEvent) (offeree_ki_number : ℕ) → NotifyEvent

-- `TYPE`
abbrev pub event_type : NotifyEvent → ℕ
event_type (collision _ _ _) = 1
event_type (picked _ _ _ _) = 2
event_type (variable _ _ _) = 4
event_type (facing _ _ _ _) = 5
event_type (contained _ _ _) = 6
event_type (activate _) = 7
event_type (callback _) = 8
event_type (responder_state _) = 9
event_type (multi_stage _ _ _) = 10
event_type (spawned _ _) = 11
event_type (coop _ _) = 13
event_type (offer_linking_book _ _ _) = 14
