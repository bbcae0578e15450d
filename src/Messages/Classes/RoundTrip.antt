-- ===== src/Messages/Classes/RoundTrip.antt =====
-- Writing and reading the message classes of src/nagus/pl_messages.py that hold other messages.
use nagus.Prelude.{refl, ◌≡◌, List, [], ◌∷◌, All, true, Option, none, some}
use nagus.Stream.{Reader, Writer}
use nagus.Stream.Enums.{Reads-member}
use nagus.Stream.Format.{u32, Reads-format}
use nagus.Stream.Reads.{
  Reads, Reads-bind, Reads-last, Reads-then, Reads-check, Reads-one, Reads-one_bool, Reads-many,
  Reads-pure,
}
use nagus.Structs.BitVector.Reads.{bit_vector-Reads}
use nagus.Structs.SafeString.{IsSafe, safe_string-Reads}
use nagus.Structs.Uoid.Reads.{IsValid, KeyIsValid, key-Reads}
use nagus.Messages.Brain.Reads.{Given, TaskIsValid, creatable_task-Reads}
use nagus.Messages.Enums.Avatar.{alignment_type}
use nagus.Messages.Classes.{
  LoadClone, LoadAvatar, AnimationCommand, SeekPoint, seek_uoid, seek_target, AvatarSeek,
  load_clone_message_mid, animation_command_message_mid, avatar_seek_message_target,
  avatar_seek_message_mid_1, avatar_seek_message_mid_2,
}
use nagus.Messages.Brain.{AvatarTask}
use nagus.Messages.Classes.Reading.{
  read_load_clone, read_task, read_load_avatar, read_callbacks, read_animation_command, read_target,
  read_seek_point, read_avatar_seek,
}
use nagus.Messages.Classes.Writing.{
  write_load_clone, write_task, write_load_avatar, write_callbacks, write_animation_command,
  write_target, write_avatar_seek,
}

module _ {M : Type 0} (P : M → Type 0) where
  pub record LoadCloneIsValid (m : LoadClone M) : Type 0 where
    pub clone_is_valid : KeyIsValid m.clone
    pub requestor_is_valid : KeyIsValid m.requestor
    pub is_valid_is_set : m.is_valid ≡ true
    pub trigger_is_valid : Given P m.trigger_message

  pub record LoadAvatarIsValid (m : LoadAvatar M) : Type 0 where
    pub load_clone_is_valid : LoadCloneIsValid m.load_clone
    pub spawn_point_is_valid : KeyIsValid m.spawn_point
    pub initial_task_is_valid : Given (TaskIsValid P) m.initial_task
    pub user_string_is_safe : IsSafe m.user_string

  pub record AnimationCommandIsValid (m : AnimationCommand M) : Type 0 where
    pub callbacks_are_valid : All (Given P) m.callbacks
    pub animation_name_is_safe : IsSafe m.animation_name
    pub loop_name_is_safe : IsSafe m.loop_name

abbrev pub SeekPointIsValid : SeekPoint → Type 0
SeekPointIsValid (seek_uoid u) = IsValid u
SeekPointIsValid (seek_target _ _) = Unit

seek_point-Reads : (p : SeekPoint) → SeekPointIsValid p → Reads (write_target p) read_seek_point p
unfolding write_target read_seek_point read_target
seek_point-Reads (seek_uoid u) v = Reads-last _ (key-Reads (some u) v) refl
seek_point-Reads (seek_target _ _) v =
    Reads-bind _ (key-Reads none tt) (Reads-last _ (Reads-format avatar_seek_message_target _) refl)

pub record AvatarSeekIsValid {M : Type 0} (P : M → Type 0) (m : AvatarSeek M) : Type 0 where
  pub task_is_valid : Given (TaskIsValid P) m.task
  pub seek_point_is_valid : SeekPointIsValid m.seek_point
  pub animation_name_is_safe : IsSafe m.animation_name
  pub finish_key_is_valid : KeyIsValid m.finish_key

module _ {M : Type 0} (r : Reader (Option M)) (w : Option M → Writer) (P : M → Type 0)
    (nested : (m : Option M) → Given P m → Reads (w m) r m) where
  pub load_clone-Reads :
      (m : LoadClone M) → LoadCloneIsValid P m → Reads (write_load_clone w m) (read_load_clone r) m
  unfolding write_load_clone read_load_clone
  load_clone-Reads m v = Reads-bind _ (key-Reads m.clone v.clone_is_valid) (
      Reads-bind _ (key-Reads m.requestor v.requestor_is_valid) (
        Reads-bind _ (Reads-format load_clone_message_mid _) (
          Reads-check _ _ v.is_valid_is_set
            (Reads-last _ (nested m.trigger_message v.trigger_is_valid) refl))))

  pub task-Reads :
      (t : Option (AvatarTask M)) → Given (TaskIsValid P) t → Reads (write_task w t) (read_task r) t
  unfolding write_task read_task
  task-Reads none v = Reads-then _ (Reads-one 0) (Reads-pure none)
  task-Reads (some t) v =
      Reads-bind _ (Reads-one 1) (Reads-last _ (creatable_task-Reads r w P nested t v) refl)

  pub load_avatar-Reads :
      (m : LoadAvatar M)
      → LoadAvatarIsValid P m
      → Reads (write_load_avatar w m) (read_load_avatar r) m
  unfolding write_load_avatar read_load_avatar
  load_avatar-Reads m v = Reads-bind _ (load_clone-Reads m.load_clone v.load_clone_is_valid) (
      Reads-bind _ (Reads-one_bool m.is_player) (
        Reads-bind _ (key-Reads m.spawn_point v.spawn_point_is_valid) (
          Reads-bind _ (task-Reads m.initial_task v.initial_task_is_valid)
            (Reads-last _ (safe_string-Reads m.user_string v.user_string_is_safe) refl))))

  pub callbacks-Reads :
      (ms : List (Option M)) → All (Given P) ms → Reads (write_callbacks w ms) (read_callbacks r) ms
  unfolding write_callbacks read_callbacks
  callbacks-Reads ms v = Reads-bind _ (Reads-format (u32 ∷ []) _) (Reads-many _ nested ms v)

  pub animation_command-Reads :
      (m : AnimationCommand M)
      → AnimationCommandIsValid P m
      → Reads (write_animation_command w m) (read_animation_command r) m
  unfolding write_animation_command read_animation_command
  animation_command-Reads m v = Reads-bind _ (callbacks-Reads m.callbacks v.callbacks_are_valid) (
      Reads-bind _ (bit_vector-Reads m.commands) (
        Reads-bind _ (Reads-format animation_command_message_mid _) (
          Reads-bind _ (safe_string-Reads m.animation_name v.animation_name_is_safe)
            (Reads-last _ (safe_string-Reads m.loop_name v.loop_name_is_safe) refl))))

  pub avatar_seek-Reads :
      (m : AvatarSeek M)
      → AvatarSeekIsValid P m
      → Reads (write_avatar_seek w m) (read_avatar_seek r) m
  unfolding write_avatar_seek read_avatar_seek
  avatar_seek-Reads m v = Reads-bind _ (task-Reads m.task v.task_is_valid) (
      Reads-bind _ (seek_point-Reads m.seek_point v.seek_point_is_valid) (
        Reads-bind _ (Reads-format avatar_seek_message_mid_1 _) (
          Reads-bind _ (safe_string-Reads m.animation_name v.animation_name_is_safe) (
            Reads-bind _ (Reads-format avatar_seek_message_mid_2 _) (
              Reads-member alignment_type _ m.alignment_type
                (Reads-last _ (key-Reads m.finish_key v.finish_key_is_valid) refl))))))
