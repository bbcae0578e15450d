-- ===== src/Examples/Messages.antt =====
-- Examples for src/nagus/pl_messages.py.
use nagus.Prelude.{Bytes, none, some, [], ◌∷◌, ◌++◌, ◌≡◌, refl, true}
use nagus.Prelude.Int.{pos, negsuc}
use nagus.Stream.{ok, err, attribute_error, ◌⊕◌}
use nagus.Stream.Reads.{Reads, Raises}
use nagus.Structs.BitVector.{bit_length, bit_length_loop}
use nagus.Structs.SafeString.{IsSafe, as_read}
use nagus.Structs.Uoid.{write_key}
use nagus.Stream.Format.{pack, pack_field, pack_uint, pattern32, le_bytes}
use nagus.Examples.Structs.{door, door_name, door-IsValid, door_name-IsSafe}
use nagus.Messages.Header.{Header, HeaderIsValid}
use nagus.Messages.Classes.{LoadAvatar, load_avatar, notify}
use nagus.Messages.Classes.RoundTrip.{LoadAvatarIsValid}
use nagus.Messages.Tree.{Message, creatable_from_stream, creatable_to_stream}
use nagus.Messages.Tree.RoundTrip.{MessageIsValid, creatable-Reads}
use nagus.Messages.Brain.{AvatarTask, one_shot_link}
use nagus.Messages.Simple.{InterfaceMessage, KiMessage}
use nagus.Messages.Events.{NotifyEvent, collision, offer_linking_book, int_value, variable}
use nagus.Messages.Events.Reading.{from_stream_with_type}
use nagus.Messages.Events.Writing.{
  write_with_type, write_event, write_single, write_magnitude, rounded,
}
use nagus.Messages.Events.RoundTrip.{event-Reads, variable-Raises, offer_linking_book-unreadable}
use nagus.Messages.Enums.General.{
  NotifyType, OfferEvent, VariableType, InterfaceCommand, KiCommand, KiChannel,
}

abbrev nothing-IsSafe : IsSafe []
unfolding as_read
nothing-IsSafe = (tt, refl)

abbrev header : Header
header = record {
  sender = some door;
  receivers = none ∷ some door ∷ [];
  timestamp = 0;
  flags = 0x41000;
}

abbrev header-IsValid : HeaderIsValid header
header-IsValid = record {
  sender_is_valid = door-IsValid;
  receivers_are_valid = (tt, (door-IsValid, tt));
}

abbrev hit : NotifyEvent
hit = collision true (some door) none

event-Reads_example : Reads (write_with_type hit) from_stream_with_type hit
event-Reads_example = event-Reads hit (door-IsValid, tt)

variable-Raises_example :
    Raises (write_with_type (variable door_name VariableType.int (int_value (pos 1))))
variable-Raises_example = variable-Raises door_name VariableType.int (int_value (pos 1))

-- -3 as a float.
single_test : write_single (negsuc 2) ≡ ok (0 ∷ 0 ∷ 0x40 ∷ 0xc0 ∷ [])
unfolding write_single write_magnitude rounded bit_length bit_length_loop pack pack_field pack_uint
    le_bytes
single_test = refl

abbrev offer : NotifyEvent
offer = offer_linking_book none OfferEvent.offer 1000

abbrev offer_bytes : Bytes
offer_bytes = 14 ∷ 0 ∷ 0 ∷ 0 ∷ 0 ∷ 0xe7 ∷ 3 ∷ 0 ∷ 0 ∷ 0xe8 ∷ 3 ∷ 0 ∷ 0 ∷ []

-- A notification of a collision.
abbrev notification : Message 1
notification = record {
  header = header;
  body =
      notify (record { type = NotifyType.activator; state = 0; id = negsuc 0; events = hit ∷ [] });
}

-- The loading of an avatar with a notification inside it.
abbrev loading : LoadAvatar (Message 1)
loading = record {
  load_clone = record {
    clone = some door;
    requestor = none;
    originating_ki_number = 40000;
    user_data = 0;
    is_valid = true;
    is_loading = true;
    trigger_message = some notification;
  };
  is_player = true;
  spawn_point = none;
  initial_task = some (one_shot_link (record { animation_name = door_name; marker_name = [] }));
  user_string = door_name;
}

abbrev message : Message 2
message = record { header = header; body = load_avatar loading }

abbrev loading-IsValid : LoadAvatarIsValid (MessageIsValid 1) loading
loading-IsValid = record {
  load_clone_is_valid = record {
    clone_is_valid = door-IsValid;
    requestor_is_valid = tt;
    is_valid_is_set = refl;
    trigger_is_valid = (header-IsValid, ((door-IsValid, tt), tt));
  };
  spawn_point_is_valid = tt;
  initial_task_is_valid = (door_name-IsSafe, nothing-IsSafe);
  user_string_is_safe = door_name-IsSafe;
}

creatable-Reads_example :
    Reads (creatable_to_stream 2 (some message)) (creatable_from_stream 2) (some message)
creatable-Reads_example = creatable-Reads 2 (some message) (header-IsValid, loading-IsValid)

offered : write_with_type offer ≡ ok offer_bytes
unfolding write_with_type write_event ◌⊕◌ pack pack_field pack_uint pattern32 le_bytes write_key
offered = refl

offer_linking_book-unreadable_example :
    from_stream_with_type (offer_bytes ++ 0 ∷ []) ≡ err attribute_error
offer_linking_book-unreadable_example =
    offer_linking_book-unreadable none OfferEvent.offer 1000 offer_bytes (0 ∷ []) offered

abbrev link_task : AvatarTask (Message 1)
link_task = one_shot_link (record { animation_name = door_name; marker_name = [] })

abbrev chat : KiMessage
chat = record {
  command = KiCommand.chat_message;
  sender_name = door_name;
  sender_ki_number = 40000;
  text = 0x48 ∷ 0x1f600 ∷ [];
  chat_flags = 0;
  channel = KiChannel.default;
  reserved_flags = 0;
  delay = 0;
  value = pos 0;
}

abbrev interface : InterfaceMessage
interface = record {
  command = InterfaceCommand.notify_offer_accepted;
  offeree_ki_number = 40001;
  age_name = door_name;
  age_file_name = door_name;
  spawn_point = [];
  avatar = some door;
}
