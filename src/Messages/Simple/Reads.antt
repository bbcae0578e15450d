-- ===== src/Messages/Simple/Reads.antt =====
-- Writing and reading the message classes of src/nagus/pl_messages.py that hold no other message.
use nagus.Prelude.{refl, [], ◌∷◌, All}
use nagus.Stream.Enums.{Reads-member}
use nagus.Stream.Format.{u16, u32, i32, Reads-format}
use nagus.Stream.Reads.{
  Reads, Reads-bind, Reads-last, Reads-then, Reads-byte, Reads-many, Reads-pure,
}
use nagus.Structs.BitVector.Reads.{bit_vector-Reads}
use nagus.Structs.SafeString.{IsSafe, safe_string-Reads}
use nagus.Structs.WideString.Reads.{wide_string-Reads}
use nagus.Structs.Uoid.Reads.{KeyIsValid, key-Reads}
use nagus.Messages.Enums.Avatar.{brain_message_type}
use nagus.Messages.Enums.General.{
  ServerReplyType, server_reply_type, notify_type, interface_command, ki_command, ki_channel,
}
use nagus.Messages.Events.RoundTrip.{EventIsValid, event-Reads}
use nagus.Messages.Simple.{
  Enable, read_enable, write_enable, read_server_reply, write_server_reply, BrainMessage,
  read_brain_message, write_brain_message, Notify, read_notify, write_notify, LinkEffects,
  read_link_effects, write_link_effects, ParticleTransfer, read_particle_transfer,
  write_particle_transfer, ParticleKill, read_particle_kill, write_particle_kill, InterfaceMessage,
  read_interface_message, write_interface_message, KiMessage, read_ki_message, write_ki_message,
  avatar_brain_generic_message, notify_message_header, link_effects_trigger_message_header,
  particle_kill_message, input_interface_manager_message_header, ki_message_footer,
}

pub enable-Reads : (m : Enable) → Reads (write_enable m) read_enable m
unfolding write_enable read_enable
enable-Reads m =
    Reads-bind _ (bit_vector-Reads m.commands) (Reads-last _ (bit_vector-Reads m.types) refl)

pub server_reply-Reads : (t : ServerReplyType) → Reads (write_server_reply t) read_server_reply t
unfolding write_server_reply read_server_reply
server_reply-Reads t =
    Reads-then _ (Reads-format (i32 ∷ []) _) (Reads-member server_reply_type _ t (Reads-pure t))

pub brain_message-Reads : (m : BrainMessage) → Reads (write_brain_message m) read_brain_message m
unfolding write_brain_message read_brain_message
brain_message-Reads m =
    Reads-then _ (Reads-format avatar_brain_generic_message _)
      (Reads-member brain_message_type _ m.type (Reads-pure m))

pub notify-Reads : (m : Notify) → All EventIsValid m.events → Reads (write_notify m) read_notify m
unfolding write_notify read_notify
notify-Reads m v = Reads-bind _ (Reads-format notify_message_header _) (
    Reads-member notify_type _ m.type
      (Reads-last _ (Reads-many EventIsValid event-Reads m.events v) refl))

pub link_effects-Reads :
    (m : LinkEffects)
    → KeyIsValid m.linker
    → KeyIsValid m.link_in_animation
    → Reads (write_link_effects m) read_link_effects m
unfolding write_link_effects read_link_effects
link_effects-Reads m v v' = Reads-bind _ (Reads-format link_effects_trigger_message_header _) (
    Reads-bind _ (key-Reads m.linker v) (
      Reads-bind _ (Reads-format (u32 ∷ []) _)
        (Reads-last _ (key-Reads m.link_in_animation v') refl)))

pub particle_transfer-Reads :
    (m : ParticleTransfer)
    → KeyIsValid m.particle_system
    → Reads (write_particle_transfer m) read_particle_transfer m
unfolding write_particle_transfer read_particle_transfer
particle_transfer-Reads m v =
    Reads-bind _ (key-Reads m.particle_system v) (Reads-last _ (Reads-format (u16 ∷ []) _) refl)

pub particle_kill-Reads : (m : ParticleKill) → Reads (write_particle_kill m) read_particle_kill m
unfolding write_particle_kill read_particle_kill
particle_kill-Reads m = Reads-last _ (Reads-format particle_kill_message _) refl

pub record InterfaceMessageIsValid (m : InterfaceMessage) : Type 0 where
  pub age_name_is_safe : IsSafe m.age_name
  pub age_file_name_is_safe : IsSafe m.age_file_name
  pub spawn_point_is_safe : IsSafe m.spawn_point
  pub avatar_is_valid : KeyIsValid m.avatar

-- An input interface manager message with safe strings and a valid avatar key: what
-- `write_interface_message` writes, where it returns, `read_interface_message` reads back as
-- the same value, whatever follows it, and a proper prefix of that makes the reader raise an
-- exception.
pub interface_message-Reads :
    (m : InterfaceMessage)
    → InterfaceMessageIsValid m
    → Reads (write_interface_message m) read_interface_message m
unfolding write_interface_message read_interface_message
interface_message-Reads m v = Reads-bind _ (Reads-format input_interface_manager_message_header _) (
    Reads-member interface_command _ m.command (
      Reads-bind _ (safe_string-Reads m.age_name v.age_name_is_safe) (
        Reads-bind _ (safe_string-Reads m.age_file_name v.age_file_name_is_safe) (
          Reads-bind _ (safe_string-Reads m.spawn_point v.spawn_point_is_safe)
            (Reads-last _ (key-Reads m.avatar v.avatar_is_valid) refl)))))

-- A KI message with a safe sender name: what `write_ki_message` writes, where it returns,
-- `read_ki_message` reads back as the same value, whatever follows it, and a proper prefix of
-- that makes the reader raise an exception.
pub ki_message-Reads :
    (m : KiMessage) → IsSafe m.sender_name → Reads (write_ki_message m) read_ki_message m
unfolding write_ki_message read_ki_message
ki_message-Reads m v = Reads-bind _ (Reads-byte (ki_command.value m.command)) (
    Reads-member ki_command _ m.command (
      Reads-bind _ (safe_string-Reads m.sender_name v) (
        Reads-bind _ (Reads-format (u32 ∷ []) _) (
          Reads-bind _ (wide_string-Reads m.text) (
            Reads-then _ (Reads-format ki_message_footer _)
              (Reads-member ki_channel _ m.channel (Reads-pure m)))))))
