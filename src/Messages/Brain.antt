-- ===== src/Messages/Brain.antt =====
-- Avatar brains and avatar tasks of src/nagus/pl_messages.py. They may hold messages, whose type and
-- binary form are parameters here.
pub mod Reads
use nagus.Prelude.{
  Bytes, ◌==◌, if◌then◌else◌, ℕ, length, replicate, List, [], ◌∷◌, Bool, Option, none, some,
}
use nagus.Prelude.Int.{ℤ}
use nagus.Stream.{
  ok, unknown_class, value_error, Reader, pure, raise, ◌>>=◌, ◌>>◌, check, Writer, ◌⊕◌, read_exact,
  read_byte, read_many, write_all, bytes_eq,
}
use nagus.Stream.Enums.{member}
use nagus.Stream.Format.{Format, u8, u32, i32, f32, flag, pack, stream_unpack}
use nagus.Structs.Uoid.{Uoid, read_key, write_key}
use nagus.Messages.Animation.{
  AnimationStage, creatable_stage_from_stream, write_creatable_stage, AnimationTask,
  read_animation_task, write_animation_task, OneShotLinkTask, read_one_shot_link_task,
  write_one_shot_link_task, class_index_format,
}
use nagus.Messages.Enums.Avatar.{
  BrainType, BrainMode, MoveMode, BodyUsage, brain_type, brain_mode, move_mode, body_usage,
}

abbrev pub avatar_brain_generic_mid_1 : Format
avatar_brain_generic_mid_1 = i32 ∷ u32 ∷ u32 ∷ u8 ∷ flag ∷ []

abbrev pub avatar_brain_generic_mid_2 : Format
avatar_brain_generic_mid_2 = f32 ∷ f32 ∷ u8 ∷ u8 ∷ []

-- `AvatarBrainGeneric`
pub record Brain (M : Type 0) : Type 0 where
  pub stages : List AnimationStage
  pub current_stage : ℤ
  pub type : BrainType
  pub exit_flags : ℕ
  pub mode : BrainMode
  pub forward : Bool
  pub start_message : Option M
  pub end_message : Option M
  pub fade_in : ℕ
  pub fade_out : ℕ
  pub move_mode : MoveMode
  pub body_usage : BodyUsage
  pub recipient : Option Uoid

-- The classes that `AvatarTask.creatable_from_stream` knows; the one brain is `AvatarBrainGeneric`.
pub data AvatarTask (M : Type 0) : Type 0 where
  animation : AnimationTask → AvatarTask M
  one_shot_link : OneShotLinkTask → AvatarTask M
  task_brain : Brain M → AvatarTask M

-- The values of `CLASS_INDEX`.
abbrev pub brain_class_index : ℕ
brain_class_index = 0x0360

abbrev pub animation_task_class_index : ℕ
animation_task_class_index = 0x036b

abbrev pub one_shot_link_task_class_index : ℕ
one_shot_link_task_class_index = 0x0488

abbrev pub task_brain_class_index : ℕ
task_brain_class_index = 0x0370

module _ {M : Type 0} (creatable_from_stream : Reader (Option M)) where
  -- A message behind a byte that tells whether it is there; it may not be null.
  unfoldable pub read_present : Reader (Option M)
  read_present = do
    present ← read_byte
    if present == 0
        then pure none
        else (creatable_from_stream >>= elim [ none ↦ raise value_error | some m ↦ pure (some m) ])

  -- `AvatarBrainGeneric.read`
  unfoldable pub read_brain : Reader (Brain M)
  read_brain = do
    reserved ← read_exact 21
    check (bytes_eq reserved (replicate 21 0)) value_error
    stage_count ← stream_unpack (u32 ∷ [])
    stages ← read_many stage_count creatable_stage_from_stream
    (current_stage, (type, (exit_flags, (mode, forward)))) ←
        stream_unpack avatar_brain_generic_mid_1
    type ← member brain_type type
    mode ← member brain_mode mode
    start_message ← read_present
    end_message ← read_present
    (fade_in, (fade_out, (move, body))) ← stream_unpack avatar_brain_generic_mid_2
    move ← member move_mode move
    body ← member body_usage body
    recipient ← read_key
    pure (record {
      stages = stages;
      current_stage = current_stage;
      type = type;
      exit_flags = exit_flags;
      mode = mode;
      forward = forward;
      start_message = start_message;
      end_message = end_message;
      fade_in = fade_in;
      fade_out = fade_out;
      move_mode = move;
      body_usage = body;
      recipient = recipient;
    })

  -- `ArmatureBrain.creatable_from_stream`
  unfoldable pub creatable_brain_from_stream : Reader (Brain M)
  creatable_brain_from_stream = do
    class_index ← stream_unpack class_index_format
    check (class_index == brain_class_index) unknown_class
    read_brain

  -- `AvatarTask.creatable_from_stream`
  unfoldable pub creatable_task_from_stream : Reader (AvatarTask M)
  creatable_task_from_stream = do
    class_index ← stream_unpack class_index_format
    if class_index == animation_task_class_index
        then (read_animation_task >>= λ t. pure (animation t))
        else if class_index == one_shot_link_task_class_index
        then (read_one_shot_link_task >>= λ t. pure (one_shot_link t))
        else if class_index == task_brain_class_index
        then (creatable_brain_from_stream >>= λ b. pure (task_brain b))
        else raise unknown_class

module _ {M : Type 0} (creatable_to_stream : Option M → Writer) where
  unfoldable pub write_present : Option M → Writer
  write_present none = ok (0 ∷ [])
  write_present (some m) = ok (1 ∷ []) ⊕ creatable_to_stream (some m)

  -- `AvatarBrainGeneric.write`
  unfoldable pub write_brain : Brain M → Writer
  write_brain b =
      ok (replicate 21 0)
      ⊕ pack (u32 ∷ []) (length b.stages)
      ⊕ write_all write_creatable_stage b.stages
      ⊕ pack avatar_brain_generic_mid_1 (
        b.current_stage,
        (brain_type.value b.type, (b.exit_flags, (brain_mode.value b.mode, b.forward))),
      )
      ⊕ write_present b.start_message
      ⊕ write_present b.end_message
      ⊕ pack avatar_brain_generic_mid_2
          (b.fade_in, (b.fade_out, (move_mode.value b.move_mode, body_usage.value b.body_usage)))
      ⊕ write_key b.recipient

  unfoldable pub write_creatable_brain : Brain M → Writer
  write_creatable_brain b = pack class_index_format brain_class_index ⊕ write_brain b

  -- `AvatarTask.write_creatable`
  unfoldable pub write_creatable_task : AvatarTask M → Writer
  write_creatable_task (animation t) =
      pack class_index_format animation_task_class_index ⊕ write_animation_task t
  write_creatable_task (one_shot_link t) =
      pack class_index_format one_shot_link_task_class_index ⊕ write_one_shot_link_task t
  write_creatable_task (task_brain b) =
      pack class_index_format task_brain_class_index ⊕ write_creatable_brain b
