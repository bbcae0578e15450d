-- ===== src/Messages/Classes/Writing.antt =====
-- The `write` methods of the message classes of src/nagus/pl_messages.py that hold other messages.
use nagus.Prelude.{length, List, [], ◌∷◌, Option, none, some}
use nagus.Stream.{ok, Writer, ◌⊕◌, write_bool, write_all}
use nagus.Stream.Format.{u32, pack}
use nagus.Structs.BitVector.{write_bit_vector}
use nagus.Structs.SafeString.{write_safe_string}
use nagus.Structs.Uoid.{write_key}
use nagus.Messages.Brain.{AvatarTask, write_creatable_task}
use nagus.Messages.Enums.Avatar.{alignment_type}
use nagus.Messages.Classes.{
  LoadClone, LoadAvatar, AnimationCommand, SeekPoint, seek_uoid, seek_target, AvatarSeek,
  load_clone_message_mid, animation_command_message_mid, avatar_seek_message_target,
  avatar_seek_message_mid_1, avatar_seek_message_mid_2,
}

unfoldable pub write_target : SeekPoint → Writer
write_target (seek_uoid u) = write_key (some u)
write_target (seek_target (x, y, z) (look_x, look_y, look_z)) =
    write_key none ⊕ pack avatar_seek_message_target (x, (y, (z, (look_x, (look_y, look_z)))))

module _ {M : Type 0} (creatable_to_stream : Option M → Writer) where
  unfoldable pub write_load_clone : LoadClone M → Writer
  write_load_clone m =
      write_key m.clone
      ⊕ write_key m.requestor
      ⊕ pack load_clone_message_mid
          (m.originating_ki_number, (m.user_data, (m.is_valid, m.is_loading)))
      ⊕ creatable_to_stream m.trigger_message

  unfoldable pub write_task : Option (AvatarTask M) → Writer
  write_task none = ok (0 ∷ [])
  write_task (some t) = ok (1 ∷ []) ⊕ write_creatable_task creatable_to_stream t

  unfoldable pub write_load_avatar : LoadAvatar M → Writer
  write_load_avatar m =
      write_load_clone m.load_clone
      ⊕ write_bool m.is_player
      ⊕ write_key m.spawn_point
      ⊕ write_task m.initial_task
      ⊕ write_safe_string m.user_string

  -- `MessageWithCallbacks.write`
  unfoldable pub write_callbacks : List (Option M) → Writer
  write_callbacks callbacks =
      pack (u32 ∷ []) (length callbacks) ⊕ write_all creatable_to_stream callbacks

  unfoldable pub write_animation_command : AnimationCommand M → Writer
  write_animation_command m =
      write_callbacks m.callbacks
      ⊕ write_bit_vector m.commands
      ⊕ pack animation_command_message_mid
          (m.begin, (m.end, (m.loop_begin, (m.loop_end, (m.speed, (m.speed_change_rate, m.time))))))
      ⊕ write_safe_string m.animation_name
      ⊕ write_safe_string m.loop_name

  unfoldable pub write_avatar_seek : AvatarSeek M → Writer
  write_avatar_seek m =
      write_task m.task
      ⊕ write_target m.seek_point
      ⊕ pack avatar_seek_message_mid_1 (m.duration, m.smart_seek)
      ⊕ write_safe_string m.animation_name
      ⊕ pack avatar_seek_message_mid_2
          (alignment_type.value m.alignment_type, (m.no_seek, m.seek_flags))
      ⊕ write_key m.finish_key
