-- ===== src/Messages/Tree.antt =====
-- Messages with messages inside them: `Message.creatable_from_stream` and `creatable_to_stream` of
-- src/nagus/pl_messages.py. `Message depth` is a message with less than `depth` levels of messages.
pub mod RoundTrip
use nagus.Prelude.{Bytes, ◌==◌, if◌then◌else◌, ℕ, zero, suc, [], ◌∷◌, Option, none, some}
use nagus.Stream.{ok, unknown_class, recursion, Reader, pure, raise, ◌>>=◌, Writer, ◌⊕◌}
use nagus.Stream.Format.{u16, pack, stream_unpack}
use nagus.Messages.Animation.{class_index_format}
use nagus.Messages.Header.{Header, read_header, write_header}
use nagus.Messages.Simple.{
  read_enable, write_enable, read_server_reply, write_server_reply, read_brain_message,
  write_brain_message, read_notify, write_notify, read_link_effects, write_link_effects,
  read_particle_transfer, write_particle_transfer, read_particle_kill, write_particle_kill,
  read_interface_message, write_interface_message, read_ki_message, write_ki_message,
}
use nagus.Messages.Classes.{
  Body, plain, animation_command, load_clone, enable, server_reply, with_callbacks, avatar,
  avatar_task, avatar_seek, notify, link_effects, particle_transfer, particle_kill,
  avatar_input_state, input_interface_manager, ki, brain, load_avatar,
}
use nagus.Messages.Classes.Reading.{
  read_load_clone, read_task, read_load_avatar, read_callbacks, read_animation_command,
  read_avatar_seek,
}
use nagus.Messages.Classes.Writing.{
  write_load_clone, write_task, write_load_avatar, write_callbacks, write_animation_command,
  write_avatar_seek,
}

-- A message whose inner messages are of type `M`.
pub record MessageOf (M : Type 0) : Type 0 where
  pub header : Header
  pub body : Body M

-- `CLASS_INDEX`
abbrev pub body_class_index : {M : Type 0} → Body M → ℕ
body_class_index plain = 0x0202
body_class_index (animation_command _) = 0x0206
body_class_index (load_clone _) = 0x0253
body_class_index (enable _) = 0x0254
body_class_index (server_reply _) = 0x026f
body_class_index (with_callbacks _) = 0x0283
body_class_index avatar = 0x0297
body_class_index (avatar_task _) = 0x0298
body_class_index (avatar_seek _) = 0x0299
body_class_index (notify _) = 0x02ed
body_class_index (link_effects _) = 0x0300
body_class_index (particle_transfer _) = 0x0333
body_class_index (particle_kill _) = 0x0334
body_class_index (avatar_input_state _) = 0x0347
body_class_index (input_interface_manager _) = 0x0363
body_class_index (ki _) = 0x0364
body_class_index (brain _) = 0x038f
body_class_index (load_avatar _) = 0x03b1

-- `structs.NULL_CLASS_INDEX`
abbrev pub null_class_index : ℕ
null_class_index = 0x8000

module _ {M : Type 0} (nested : Reader (Option M)) where
  -- `MESSAGE_CLASSES_BY_INDEX`, with the `read` of each class behind `Message.read`.
  unfoldable pub class_by_index : ℕ → Option (Reader (Body M))
  class_by_index i =
      if i == 0x0202
      then some (pure plain)
      else if i == 0x0206
      then some (read_animation_command nested >>= λ m. pure (animation_command m))
      else if i == 0x0253
      then some (read_load_clone nested >>= λ m. pure (load_clone m))
      else if i == 0x0254
      then some (read_enable >>= λ m. pure (enable m))
      else if i == 0x026f
      then some (read_server_reply >>= λ m. pure (server_reply m))
      else if i == 0x0283
      then some (read_callbacks nested >>= λ m. pure (with_callbacks m))
      else if i == 0x0297
      then some (pure avatar)
      else if i == 0x0298
      then some (read_task nested >>= λ m. pure (avatar_task m))
      else if i == 0x0299
      then some (read_avatar_seek nested >>= λ m. pure (avatar_seek m))
      else if i == 0x02ed
      then some (read_notify >>= λ m. pure (notify m))
      else if i == 0x0300
      then some (read_link_effects >>= λ m. pure (link_effects m))
      else if i == 0x0333
      then some (read_particle_transfer >>= λ m. pure (particle_transfer m))
      else if i == 0x0334
      then some (read_particle_kill >>= λ m. pure (particle_kill m))
      else if i == 0x0347
      then some (stream_unpack (u16 ∷ []) >>= λ state. pure (avatar_input_state state))
      else if i == 0x0363
      then some (read_interface_message >>= λ m. pure (input_interface_manager m))
      else if i == 0x0364
      then some (read_ki_message >>= λ m. pure (ki m))
      else if i == 0x038f
      then some (read_brain_message >>= λ m. pure (brain m))
      else if i == 0x03b1
      then some (read_load_avatar nested >>= λ m. pure (load_avatar m))
      else none

  -- `self.read(stream)` on an object of the class, if there is one.
  unfoldable pub read_class : Option (Reader (Body M)) → Reader (Option (MessageOf M))
  read_class none = raise unknown_class
  read_class (some read_body) = do
    header ← read_header
    body ← read_body
    pure (some (record { header = header; body = body }))

  -- `Message.creatable_from_stream`
  unfoldable pub creatable_with : Reader (Option (MessageOf M))
  creatable_with = do
    class_index ← stream_unpack class_index_format
    if class_index == null_class_index then pure none else read_class (class_by_index class_index)

module _ {M : Type 0} (nested : Option M → Writer) where
  -- `write` of each class, behind `Message.write`.
  unfoldable pub write_body : Body M → Writer
  write_body plain = ok []
  write_body (animation_command m) = write_animation_command nested m
  write_body (load_clone m) = write_load_clone nested m
  write_body (enable m) = write_enable m
  write_body (server_reply m) = write_server_reply m
  write_body (with_callbacks m) = write_callbacks nested m
  write_body avatar = ok []
  write_body (avatar_task m) = write_task nested m
  write_body (avatar_seek m) = write_avatar_seek nested m
  write_body (notify m) = write_notify m
  write_body (link_effects m) = write_link_effects m
  write_body (particle_transfer m) = write_particle_transfer m
  write_body (particle_kill m) = write_particle_kill m
  write_body (avatar_input_state state) = pack (u16 ∷ []) state
  write_body (input_interface_manager m) = write_interface_message m
  write_body (ki m) = write_ki_message m
  write_body (brain m) = write_brain_message m
  write_body (load_avatar m) = write_load_avatar nested m

  -- `Message.creatable_to_stream`
  unfoldable pub creatable_to_with : Option (MessageOf M) → Writer
  creatable_to_with none = ok (0x00 ∷ 0x80 ∷ [])
  creatable_to_with (some m) =
      pack class_index_format (body_class_index m.body) ⊕ write_header m.header ⊕ write_body m.body

abbrev pub Message : ℕ → Type 0
Message zero = ⊥
Message (suc depth) = MessageOf (Message depth)

-- At depth zero no call is left for a message that is not null.
unfoldable pub creatable_from_stream : (depth : ℕ) → Reader (Option (Message depth))
creatable_from_stream zero = stream_unpack class_index_format >>= λ i.
    if i == null_class_index then pure none else raise recursion
creatable_from_stream (suc depth) = creatable_with (creatable_from_stream depth)

unfoldable pub creatable_to_stream : (depth : ℕ) → Option (Message depth) → Writer
creatable_to_stream zero none = ok (0x00 ∷ 0x80 ∷ [])
creatable_to_stream zero (some m) = absurd m
creatable_to_stream (suc depth) m = creatable_to_with (creatable_to_stream depth) m
