-- ===== src/Messages/Classes/Reading.antt =====
-- The `read` methods of the message classes of src/nagus/pl_messages.py that hold other messages.
use nagus.Prelude.{◌==◌, if◌then◌else◌, List, [], ◌∷◌, Option, none, some}
use nagus.Stream.{value_error, Reader, pure, ◌>>=◌, ◌>>◌, check, read_one, read_one_bool, read_many}
use nagus.Stream.Enums.{member}
use nagus.Stream.Format.{u32, stream_unpack}
use nagus.Structs.BitVector.{read_bit_vector}
use nagus.Structs.SafeString.{read_safe_string}
use nagus.Structs.Uoid.{Uoid, read_key}
use nagus.Messages.Brain.{AvatarTask, creatable_task_from_stream}
use nagus.Messages.Enums.Avatar.{alignment_type}
use nagus.Messages.Classes.{
  LoadClone, LoadAvatar, AnimationCommand, SeekPoint, seek_uoid, seek_target, AvatarSeek,
  load_clone_message_mid, animation_command_message_mid, avatar_seek_message_target,
  avatar_seek_message_mid_1, avatar_seek_message_mid_2,
}

-- The target behind a null key, or the key.
unfoldable pub read_target : Option Uoid → Reader SeekPoint
read_target none = do
  (x, (y, (z, (look_x, (look_y, look_z))))) ← stream_unpack avatar_seek_message_target
  pure (seek_target (x, y, z) (look_x, look_y, look_z))
read_target (some u) = pure (seek_uoid u)

-- A key, or a null key and a target.
unfoldable pub read_seek_point : Reader SeekPoint
read_seek_point = read_key >>= read_target

module _ {M : Type 0} (creatable_from_stream : Reader (Option M)) where
  unfoldable pub read_load_clone : Reader (LoadClone M)
  read_load_clone = do
    clone ← read_key
    requestor ← read_key
    (originating_ki_number, (user_data, (is_valid, is_loading))) ←
        stream_unpack load_clone_message_mid
    check is_valid value_error
    trigger_message ← creatable_from_stream
    pure (record {
      clone = clone;
      requestor = requestor;
      originating_ki_number = originating_ki_number;
      user_data = user_data;
      is_valid = is_valid;
      is_loading = is_loading;
      trigger_message = trigger_message;
    })

  -- A task behind a byte that tells whether it is there.
  unfoldable pub read_task : Reader (Option (AvatarTask M))
  read_task = do
    present ← read_one
    if present == 0
        then pure none
        else (creatable_task_from_stream creatable_from_stream >>= λ t. pure (some t))

  unfoldable pub read_load_avatar : Reader (LoadAvatar M)
  read_load_avatar = do
    cloned ← read_load_clone
    is_player ← read_one_bool
    spawn_point ← read_key
    initial_task ← read_task
    user_string ← read_safe_string
    pure (record {
      load_clone = cloned;
      is_player = is_player;
      spawn_point = spawn_point;
      initial_task = initial_task;
      user_string = user_string;
    })

  -- `MessageWithCallbacks.read`
  unfoldable pub read_callbacks : Reader (List (Option M))
  read_callbacks = do
    callback_count ← stream_unpack (u32 ∷ [])
    read_many callback_count creatable_from_stream

  unfoldable pub read_animation_command : Reader (AnimationCommand M)
  read_animation_command = do
    callbacks ← read_callbacks
    commands ← read_bit_vector
    (begin, (end, (loop_begin, (loop_end, (speed, (speed_change_rate, time)))))) ←
        stream_unpack animation_command_message_mid
    animation_name ← read_safe_string
    loop_name ← read_safe_string
    pure (record {
      callbacks = callbacks;
      commands = commands;
      begin = begin;
      end = end;
      loop_begin = loop_begin;
      loop_end = loop_end;
      speed = speed;
      speed_change_rate = speed_change_rate;
      time = time;
      animation_name = animation_name;
      loop_name = loop_name;
    })

  unfoldable pub read_avatar_seek : Reader (AvatarSeek M)
  read_avatar_seek = do
    task ← read_task
    seek_point ← read_seek_point
    (duration, smart_seek) ← stream_unpack avatar_seek_message_mid_1
    animation_name ← read_safe_string
    (alignment, (no_seek, seek_flags)) ← stream_unpack avatar_seek_message_mid_2
    alignment ← member alignment_type alignment
    finish_key ← read_key
    pure (record {
      task = task;
      seek_point = seek_point;
      duration = duration;
      smart_seek = smart_seek;
      animation_name = animation_name;
      alignment_type = alignment;
      no_seek = no_seek;
      seek_flags = seek_flags;
      finish_key = finish_key;
    })
