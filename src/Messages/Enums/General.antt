-- ===== src/Messages/Enums/General.antt =====
-- The `IntEnum` classes of the other messages and of notification events in src/nagus/pl_messages.py.
use nagus.Prelude.{◌==◌, ℕ, ◌≡◌, refl, [], ◌∷◌, Option, some}
use nagus.Prelude.Int.{ℤ, pos, negsuc}
use nagus.Stream.Enums.{IntEnum, find_member, ◌==ℤ◌}

-- `ServerReplyMessage.Type`
pub data ServerReplyType : Type 0 where
  uninitialized deny affirm : ServerReplyType

abbrev pub server_reply_type_value : ServerReplyType → ℤ
server_reply_type_value uninitialized = negsuc 0
server_reply_type_value deny = pos 0
server_reply_type_value affirm = pos 1

abbrev server_reply_type_lookup : ℤ → Option ServerReplyType
server_reply_type_lookup =
    find_member ◌==ℤ◌ server_reply_type_value
      (ServerReplyType.uninitialized ∷ ServerReplyType.deny ∷ ServerReplyType.affirm ∷ [])

pub server_reply_type_lem :
    (t : ServerReplyType) → server_reply_type_lookup (server_reply_type_value t) ≡ some t
server_reply_type_lem uninitialized = refl
server_reply_type_lem _ = refl

abbrev pub server_reply_type : IntEnum ℤ ServerReplyType
server_reply_type = record {
  value = server_reply_type_value;
  lookup = server_reply_type_lookup;
  lookup-value = server_reply_type_lem;
}

-- `VariableEvent.DataType`
pub data VariableType : Type 0 where
  float key int null : VariableType

abbrev pub variable_type_value : VariableType → ℤ
variable_type_value float = pos 1
variable_type_value key = pos 2
variable_type_value int = pos 3
variable_type_value null = pos 4

abbrev variable_type_lookup : ℤ → Option VariableType
variable_type_lookup =
    find_member ◌==ℤ◌ variable_type_value
      (VariableType.float ∷ VariableType.key ∷ VariableType.int ∷ VariableType.null ∷ [])

pub variable_type_lem : (t : VariableType) → variable_type_lookup (variable_type_value t) ≡ some t
variable_type_lem float = refl
variable_type_lem _ = refl

abbrev pub variable_type : IntEnum ℤ VariableType
variable_type = record {
  value = variable_type_value;
  lookup = variable_type_lookup;
  lookup-value = variable_type_lem;
}

-- `MultiStageEvent.Event`
pub data StageEvent : Type 0 where
  enter_stage beginning_of_loop advance_next_stage regress_previous_stage : StageEvent

abbrev pub stage_event_value : StageEvent → ℤ
stage_event_value enter_stage = pos 1
stage_event_value beginning_of_loop = pos 2
stage_event_value advance_next_stage = pos 3
stage_event_value regress_previous_stage = pos 4

abbrev stage_event_lookup : ℤ → Option StageEvent
stage_event_lookup = find_member ◌==ℤ◌ stage_event_value (
    StageEvent.enter_stage ∷ StageEvent.beginning_of_loop ∷ StageEvent.advance_next_stage
    ∷ StageEvent.regress_previous_stage ∷ [])

pub stage_event_lem : (t : StageEvent) → stage_event_lookup (stage_event_value t) ≡ some t
stage_event_lem enter_stage = refl
stage_event_lem _ = refl

abbrev pub stage_event : IntEnum ℤ StageEvent
stage_event = record {
  value = stage_event_value;
  lookup = stage_event_lookup;
  lookup-value = stage_event_lem;
}

-- `OfferLinkingBookEvent.Event`
pub data OfferEvent : Type 0 where
  finish offer rescind : OfferEvent

abbrev pub offer_event_value : OfferEvent → ℤ
offer_event_value finish = pos 0
offer_event_value offer = pos 999
offer_event_value rescind = negsuc 998

abbrev offer_event_lookup : ℤ → Option OfferEvent
offer_event_lookup =
    find_member ◌==ℤ◌ offer_event_value
      (OfferEvent.finish ∷ OfferEvent.offer ∷ OfferEvent.rescind ∷ [])

pub offer_event_lem : (t : OfferEvent) → offer_event_lookup (offer_event_value t) ≡ some t
offer_event_lem finish = refl
offer_event_lem _ = refl

abbrev pub offer_event : IntEnum ℤ OfferEvent
offer_event = record {
  value = offer_event_value;
  lookup = offer_event_lookup;
  lookup-value = offer_event_lem;
}

-- `NotifyMessage.Type`
pub data NotifyType : Type 0 where
  activator var_notification notify_self responder_fast_forward responder_change_state : NotifyType

abbrev pub notify_type_value : NotifyType → ℤ
notify_type_value activator = pos 0
notify_type_value var_notification = pos 1
notify_type_value notify_self = pos 2
notify_type_value responder_fast_forward = pos 3
notify_type_value responder_change_state = pos 4

abbrev notify_type_lookup : ℤ → Option NotifyType
notify_type_lookup = find_member ◌==ℤ◌ notify_type_value (
    NotifyType.activator ∷ NotifyType.var_notification ∷ NotifyType.notify_self
    ∷ NotifyType.responder_fast_forward ∷ NotifyType.responder_change_state ∷ [])

pub notify_type_lem : (t : NotifyType) → notify_type_lookup (notify_type_value t) ≡ some t
notify_type_lem activator = refl
notify_type_lem _ = refl

abbrev pub notify_type : IntEnum ℤ NotifyType
notify_type = record {
  value = notify_type_value;
  lookup = notify_type_lookup;
  lookup-value = notify_type_lem;
}

-- `InputInterfaceManagerMessage.Command`
pub data InterfaceCommand : Type 0 where
  add_interface remove_interface enable_clickables disable_clickables set_offer_book_mode
        clear_offer_book_mode notify_offer_accepted notify_offer_rejected notify_offer_completed
        disable_avatar_clickable enable_avatar_clickable gui_disable_avatar_clickable
        gui_enable_avatar_clickable set_share_spawn_point set_share_age_instance_guid :
      InterfaceCommand

abbrev pub interface_command_value : InterfaceCommand → ℕ
interface_command_value add_interface = 0
interface_command_value remove_interface = 1
interface_command_value enable_clickables = 2
interface_command_value disable_clickables = 3
interface_command_value set_offer_book_mode = 4
interface_command_value clear_offer_book_mode = 5
interface_command_value notify_offer_accepted = 6
interface_command_value notify_offer_rejected = 7
interface_command_value notify_offer_completed = 8
interface_command_value disable_avatar_clickable = 9
interface_command_value enable_avatar_clickable = 10
interface_command_value gui_disable_avatar_clickable = 11
interface_command_value gui_enable_avatar_clickable = 12
interface_command_value set_share_spawn_point = 13
interface_command_value set_share_age_instance_guid = 14

abbrev interface_command_lookup : ℕ → Option InterfaceCommand
interface_command_lookup = find_member ◌==◌ interface_command_value (
    InterfaceCommand.add_interface ∷ InterfaceCommand.remove_interface
    ∷ InterfaceCommand.enable_clickables ∷ InterfaceCommand.disable_clickables
    ∷ InterfaceCommand.set_offer_book_mode ∷ InterfaceCommand.clear_offer_book_mode
    ∷ InterfaceCommand.notify_offer_accepted ∷ InterfaceCommand.notify_offer_rejected
    ∷ InterfaceCommand.notify_offer_completed ∷ InterfaceCommand.disable_avatar_clickable
    ∷ InterfaceCommand.enable_avatar_clickable ∷ InterfaceCommand.gui_disable_avatar_clickable
    ∷ InterfaceCommand.gui_enable_avatar_clickable ∷ InterfaceCommand.set_share_spawn_point
    ∷ InterfaceCommand.set_share_age_instance_guid ∷ [])

pub interface_command_lem :
    (t : InterfaceCommand) → interface_command_lookup (interface_command_value t) ≡ some t
interface_command_lem add_interface = refl
interface_command_lem _ = refl

abbrev pub interface_command : IntEnum ℕ InterfaceCommand
interface_command = record {
  value = interface_command_value;
  lookup = interface_command_lookup;
  lookup-value = interface_command_lem;
}

-- `KIMessage.Command`
pub data KiCommand : Type 0 where
  chat_message : KiCommand

abbrev pub ki_command_value : KiCommand → ℕ
ki_command_value chat_message = 0

abbrev ki_command_lookup : ℕ → Option KiCommand
ki_command_lookup = find_member ◌==◌ ki_command_value (KiCommand.chat_message ∷ [])

pub ki_command_lem : (t : KiCommand) → ki_command_lookup (ki_command_value t) ≡ some t
ki_command_lem chat_message = refl

abbrev pub ki_command : IntEnum ℕ KiCommand
ki_command = record {
  value = ki_command_value;
  lookup = ki_command_lookup;
  lookup-value = ki_command_lem;
}

-- `KIMessage.Channel`
pub data KiChannel : Type 0 where
  default egg_room_1 egg_room_2 egg_room_3 egg_room_4 egg_room_5 maintainers_nexus_yellow
        maintainers_nexus_purple :
      KiChannel

abbrev pub ki_channel_value : KiChannel → ℕ
ki_channel_value default = 0
ki_channel_value egg_room_1 = 1
ki_channel_value egg_room_2 = 2
ki_channel_value egg_room_3 = 3
ki_channel_value egg_room_4 = 4
ki_channel_value egg_room_5 = 5
ki_channel_value maintainers_nexus_yellow = 6
ki_channel_value maintainers_nexus_purple = 7

abbrev ki_channel_lookup : ℕ → Option KiChannel
ki_channel_lookup = find_member ◌==◌ ki_channel_value (
    KiChannel.default ∷ KiChannel.egg_room_1 ∷ KiChannel.egg_room_2 ∷ KiChannel.egg_room_3
    ∷ KiChannel.egg_room_4 ∷ KiChannel.egg_room_5 ∷ KiChannel.maintainers_nexus_yellow
    ∷ KiChannel.maintainers_nexus_purple ∷ [])

pub ki_channel_lem : (t : KiChannel) → ki_channel_lookup (ki_channel_value t) ≡ some t
ki_channel_lem default = refl
ki_channel_lem _ = refl

abbrev pub ki_channel : IntEnum ℕ KiChannel
ki_channel = record {
  value = ki_channel_value;
  lookup = ki_channel_lookup;
  lookup-value = ki_channel_lem;
}
