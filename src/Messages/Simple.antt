-- ===== src/Messages/Simple.antt =====
-- The message classes of src/nagus/pl_messages.py that hold no other message: what each reads and
-- writes behind the fields of `Message`.
pub mod Reads
use nagus.Prelude.{Bytes, ◌==◌, if◌then◌else◌, length, ℕ, List, [], ◌∷◌, Bool, Option}
use nagus.Prelude.Int.{ℤ}
use nagus.Stream.{Reader, pure, ◌>>=◌, Writer, ◌⊕◌, read_byte, write_byte, read_many, write_all}
use nagus.Stream.Enums.{member}
use nagus.Stream.Format.{Format, u8, u16, u32, i32, f32, flag, pack, stream_unpack}
use nagus.Structs.BitVector.{read_bit_vector, write_bit_vector}
use nagus.Structs.SafeString.{read_safe_string, write_safe_string}
use nagus.Structs.WideString.{read_safe_wide_string, write_safe_wide_string}
use nagus.Structs.Uoid.{Uoid, read_key, write_key}
use nagus.Messages.Enums.Avatar.{BrainMessageType, brain_message_type}
use nagus.Messages.Enums.General.{
  ServerReplyType, server_reply_type, NotifyType, notify_type, InterfaceCommand, interface_command,
  KiCommand, ki_command, KiChannel, ki_channel,
}
use nagus.Messages.Events.{NotifyEvent}
use nagus.Messages.Events.Reading.{from_stream_with_type}
use nagus.Messages.Events.Writing.{write_with_type}

abbrev pub avatar_brain_generic_message : Format
avatar_brain_generic_message = u32 ∷ i32 ∷ flag ∷ f32 ∷ flag ∷ flag ∷ f32 ∷ []

abbrev pub notify_message_header : Format
notify_message_header = i32 ∷ f32 ∷ i32 ∷ u32 ∷ []

abbrev pub link_effects_trigger_message_header : Format
link_effects_trigger_message_header = i32 ∷ flag ∷ []

abbrev pub particle_kill_message : Format
particle_kill_message = f32 ∷ f32 ∷ u8 ∷ []

abbrev pub input_interface_manager_message_header : Format
input_interface_manager_message_header = u8 ∷ u32 ∷ []

abbrev pub ki_message_footer : Format
ki_message_footer = u8 ∷ u8 ∷ u16 ∷ f32 ∷ i32 ∷ []

-- `EnableMessage`
pub record Enable : Type 0 where
  pub commands : ℕ
  pub types : ℕ

unfoldable pub read_enable : Reader Enable
read_enable = do
  commands ← read_bit_vector
  types ← read_bit_vector
  pure (record { commands = commands; types = types })

unfoldable pub write_enable : Enable → Writer
write_enable m = write_bit_vector m.commands ⊕ write_bit_vector m.types

-- `ServerReplyMessage`
unfoldable pub read_server_reply : Reader ServerReplyType
read_server_reply = do typ ← stream_unpack (i32 ∷ []); typ ← member server_reply_type typ; pure typ

unfoldable pub write_server_reply : ServerReplyType → Writer
write_server_reply type = pack (i32 ∷ []) (server_reply_type.value type)

-- `AvatarBrainGenericMessage`
pub record BrainMessage : Type 0 where
  pub type : BrainMessageType
  pub stage : ℤ
  pub set_time : Bool
  pub time : ℕ
  pub set_direction : Bool
  pub direction : Bool
  pub transition_time : ℕ

unfoldable pub read_brain_message : Reader BrainMessage
read_brain_message = do
  (message_type, (stage, (set_time, (time, (set_direction, (direction, transition_time)))))) ←
      stream_unpack avatar_brain_generic_message
  type ← member brain_message_type message_type
  pure (record {
    type = type;
    stage = stage;
    set_time = set_time;
    time = time;
    set_direction = set_direction;
    direction = direction;
    transition_time = transition_time;
  })

unfoldable pub write_brain_message : BrainMessage → Writer
write_brain_message m = pack avatar_brain_generic_message (
  brain_message_type.value m.type,
  (m.stage, (m.set_time, (m.time, (m.set_direction, (m.direction, m.transition_time))))),
)

-- `NotifyMessage`
pub record Notify : Type 0 where
  pub type : NotifyType
  pub state : ℕ
  pub id : ℤ
  pub events : List NotifyEvent

unfoldable pub read_notify : Reader Notify
read_notify = do
  (notification_type, (notify_state, (notify_id, event_count))) ←
      stream_unpack notify_message_header
  type ← member notify_type notification_type
  events ← read_many event_count from_stream_with_type
  pure (record { type = type; state = notify_state; id = notify_id; events = events })

unfoldable pub write_notify : Notify → Writer
write_notify m =
    pack notify_message_header (notify_type.value m.type, (m.state, (m.id, length m.events)))
    ⊕ write_all write_with_type m.events

-- `LinkEffectsTriggerMessage`
pub record LinkEffects : Type 0 where
  pub ccr_level : ℤ
  pub linking_out : Bool
  pub linker : Option Uoid
  pub link_effects_flags : ℕ
  pub link_in_animation : Option Uoid

unfoldable pub read_link_effects : Reader LinkEffects
read_link_effects = do
  (ccr_level, linking_out) ← stream_unpack link_effects_trigger_message_header
  linker ← read_key
  link_effects_flags ← stream_unpack (u32 ∷ [])
  link_in_animation ← read_key
  pure (record {
    ccr_level = ccr_level;
    linking_out = linking_out;
    linker = linker;
    link_effects_flags = link_effects_flags;
    link_in_animation = link_in_animation;
  })

unfoldable pub write_link_effects : LinkEffects → Writer
write_link_effects m =
    pack link_effects_trigger_message_header (m.ccr_level, m.linking_out)
    ⊕ write_key m.linker
    ⊕ pack (u32 ∷ []) m.link_effects_flags
    ⊕ write_key m.link_in_animation

-- `ParticleTransferMessage`
pub record ParticleTransfer : Type 0 where
  pub particle_system : Option Uoid
  pub transfer_count : ℕ

unfoldable pub read_particle_transfer : Reader ParticleTransfer
read_particle_transfer = do
  particle_system ← read_key
  transfer_count ← stream_unpack (u16 ∷ [])
  pure (record { particle_system = particle_system; transfer_count = transfer_count })

unfoldable pub write_particle_transfer : ParticleTransfer → Writer
write_particle_transfer m = write_key m.particle_system ⊕ pack (u16 ∷ []) m.transfer_count

-- `ParticleKillMessage`
pub record ParticleKill : Type 0 where
  pub amount : ℕ
  pub time_left : ℕ
  pub kill_flags : ℕ

unfoldable pub read_particle_kill : Reader ParticleKill
read_particle_kill = do
  (amount, (time_left, flags)) ← stream_unpack particle_kill_message
  pure (record { amount = amount; time_left = time_left; kill_flags = flags })

unfoldable pub write_particle_kill : ParticleKill → Writer
write_particle_kill m = pack particle_kill_message (m.amount, (m.time_left, m.kill_flags))

-- `InputInterfaceManagerMessage`
pub record InterfaceMessage : Type 0 where
  pub command : InterfaceCommand
  pub offeree_ki_number : ℕ
  pub age_name : Bytes
  pub age_file_name : Bytes
  pub spawn_point : Bytes
  pub avatar : Option Uoid

unfoldable pub read_interface_message : Reader InterfaceMessage
read_interface_message = do
  (command, offeree_ki_number) ← stream_unpack input_interface_manager_message_header
  command ← member interface_command command
  age_name ← read_safe_string
  age_file_name ← read_safe_string
  spawn_point ← read_safe_string
  avatar ← read_key
  pure (record {
    command = command;
    offeree_ki_number = offeree_ki_number;
    age_name = age_name;
    age_file_name = age_file_name;
    spawn_point = spawn_point;
    avatar = avatar;
  })

unfoldable pub write_interface_message : InterfaceMessage → Writer
write_interface_message m =
    pack input_interface_manager_message_header
      (interface_command.value m.command, m.offeree_ki_number)
    ⊕ write_safe_string m.age_name
    ⊕ write_safe_string m.age_file_name
    ⊕ write_safe_string m.spawn_point
    ⊕ write_key m.avatar

-- `KIMessage`
pub record KiMessage : Type 0 where
  pub command : KiCommand
  pub sender_name : Bytes
  pub sender_ki_number : ℕ
  pub text : List ℕ
  pub chat_flags : ℕ
  pub channel : KiChannel
  pub reserved_flags : ℕ
  pub delay : ℕ
  pub value : ℤ

unfoldable pub read_ki_message : Reader KiMessage
read_ki_message = do
  command ← read_byte
  command ← member ki_command command
  sender_name ← read_safe_string
  sender_ki_number ← stream_unpack (u32 ∷ [])
  text ← read_safe_wide_string
  (chat_flags, (channel, (reserved_flags, (delay, value)))) ← stream_unpack ki_message_footer
  channel ← member ki_channel channel
  pure (record {
    command = command;
    sender_name = sender_name;
    sender_ki_number = sender_ki_number;
    text = text;
    chat_flags = chat_flags;
    channel = channel;
    reserved_flags = reserved_flags;
    delay = delay;
    value = value;
  })

unfoldable pub write_ki_message : KiMessage → Writer
write_ki_message m =
    write_byte (ki_command.value m.command)
    ⊕ write_safe_string m.sender_name
    ⊕ pack (u32 ∷ []) m.sender_ki_number
    ⊕ write_safe_wide_string m.text
    ⊕ pack ki_message_footer
        (m.chat_flags, (ki_channel.value m.channel, (m.reserved_flags, (m.delay, m.value))))
