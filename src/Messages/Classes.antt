-- ===== src/Messages/Classes.antt =====
-- The message classes of src/nagus/pl_messages.py that hold other messages, and the sum of all classes.
-- The type of the messages inside and their binary form are parameters; `Tree` fills them.
pub mod Reading
pub mod Writing
pub mod RoundTrip
use nagus.Prelude.{Bytes, ◌==◌, if◌then◌else◌, length, ℕ, List, [], ◌∷◌, Bool, Option, none, some}
use nagus.Stream.{
  ok, err, value_error, Reader, pure, ◌>>=◌, ◌>>◌, check, Writer, ◌⊕◌, read_one, write_bool,
  read_many, write_all,
}
use nagus.Stream.Enums.{member}
use nagus.Stream.Format.{Format, u8, u16, u32, f32, flag, pack, stream_unpack}
use nagus.Structs.BitVector.{read_bit_vector, write_bit_vector}
use nagus.Structs.SafeString.{read_safe_string, write_safe_string}
use nagus.Structs.Uoid.{Uoid, read_key, write_key}
use nagus.Messages.Brain.{AvatarTask, creatable_task_from_stream, write_creatable_task}
use nagus.Messages.Enums.Avatar.{AlignmentType, alignment_type}
use nagus.Messages.Enums.General.{ServerReplyType}
use nagus.Messages.Events.{Point3}
use nagus.Messages.Simple.{
  Enable, BrainMessage, Notify, LinkEffects, ParticleTransfer, ParticleKill, InterfaceMessage,
  KiMessage,
}

abbrev pub load_clone_message_mid : Format
load_clone_message_mid = u32 ∷ u32 ∷ flag ∷ flag ∷ []

abbrev pub animation_command_message_mid : Format
animation_command_message_mid = f32 ∷ f32 ∷ f32 ∷ f32 ∷ f32 ∷ f32 ∷ f32 ∷ []

abbrev pub avatar_seek_message_target : Format
avatar_seek_message_target = f32 ∷ f32 ∷ f32 ∷ f32 ∷ f32 ∷ f32 ∷ []

abbrev pub avatar_seek_message_mid_1 : Format
avatar_seek_message_mid_1 = f32 ∷ flag ∷ []

abbrev pub avatar_seek_message_mid_2 : Format
avatar_seek_message_mid_2 = u16 ∷ flag ∷ u8 ∷ []

-- `LoadCloneMessage`
pub record LoadClone (M : Type 0) : Type 0 where
  pub clone : Option Uoid
  pub requestor : Option Uoid
  pub originating_ki_number : ℕ
  pub user_data : ℕ
  pub is_valid : Bool
  pub is_loading : Bool
  pub trigger_message : Option M

-- What `LoadAvatarMessage` adds to `LoadCloneMessage`.
pub record LoadAvatar (M : Type 0) : Type 0 where
  pub load_clone : LoadClone M
  pub is_player : Bool
  pub spawn_point : Option Uoid
  pub initial_task : Option (AvatarTask M)
  pub user_string : Bytes

-- `AnimationCommandMessage`, with the callbacks of `MessageWithCallbacks`.
pub record AnimationCommand (M : Type 0) : Type 0 where
  pub callbacks : List (Option M)
  pub commands : ℕ
  pub begin : ℕ
  pub end : ℕ
  pub loop_begin : ℕ
  pub loop_end : ℕ
  pub speed : ℕ
  pub speed_change_rate : ℕ
  pub time : ℕ
  pub animation_name : Bytes
  pub loop_name : Bytes

-- `AvatarSeekMessage.seek_point`: a UOID, or a position and a point to look at.
pub data SeekPoint : Type 0 where
  seek_uoid : Uoid → SeekPoint
  seek_target : Point3 → Point3 → SeekPoint

-- `AvatarSeekMessage`, with the task of `AvatarTaskMessage`.
pub record AvatarSeek (M : Type 0) : Type 0 where
  pub task : Option (AvatarTask M)
  pub seek_point : SeekPoint
  pub duration : ℕ
  pub smart_seek : Bool
  pub animation_name : Bytes
  pub alignment_type : AlignmentType
  pub no_seek : Bool
  pub seek_flags : ℕ
  pub finish_key : Option Uoid

-- One constructor for each class, with the fields that it adds to those of `Message`.
pub data Body (M : Type 0) : Type 0 where
  plain : Body M
  animation_command : AnimationCommand M → Body M
  load_clone : LoadClone M → Body M
  enable : Enable → Body M
  server_reply : ServerReplyType → Body M
  with_callbacks : List (Option M) → Body M
  avatar : Body M
  avatar_task : Option (AvatarTask M) → Body M
  avatar_seek : AvatarSeek M → Body M
  notify : Notify → Body M
  link_effects : LinkEffects → Body M
  particle_transfer : ParticleTransfer → Body M
  particle_kill : ParticleKill → Body M
  avatar_input_state : ℕ → Body M
  input_interface_manager : InterfaceMessage → Body M
  ki : KiMessage → Body M
  brain : BrainMessage → Body M
  load_avatar : LoadAvatar M → Body M
