-- ===== src/Messages/Animation.antt =====
-- `AnimationStage`, and the avatar tasks that hold no message, of src/nagus/pl_messages.py.
pub mod Reads
use nagus.Prelude.{Bytes, ◌==◌, ℕ, ◌≡◌, refl, List, [], ◌∷◌, Bool}
use nagus.Prelude.Int.{ℤ}
use nagus.Stream.{unknown_class, Reader, pure, ◌>>=◌, ◌>>◌, check, Writer, ◌⊕◌}
use nagus.Messages.Enums.Avatar.{
  ForwardBackwardType, AdvanceRegressType, forward_backward_type, advance_regress_type,
}
use nagus.Stream.Enums.{member}
use nagus.Stream.Format.{Format, u8, u16, u32, i32, f32, flag, pack, stream_unpack}
use nagus.Structs.SafeString.{read_safe_string, write_safe_string}

-- `structs.CLASS_INDEX`
abbrev pub class_index_format : Format
class_index_format = u16 ∷ []

abbrev pub animation_stage_footer : Format
animation_stage_footer = u8 ∷ u32 ∷ u32 ∷ u32 ∷ u32 ∷ i32 ∷ flag ∷ u32 ∷ flag ∷ u32 ∷ []

abbrev pub animation_stage_footer_aux : Format
animation_stage_footer_aux = f32 ∷ f32 ∷ i32 ∷ flag ∷ []

abbrev pub avatar_animation_task_footer : Format
avatar_animation_task_footer = f32 ∷ f32 ∷ f32 ∷ f32 ∷ flag ∷ flag ∷ flag ∷ []

pub record AnimationStage : Type 0 where
  pub animation_name : Bytes
  pub notify_flags : ℕ
  pub forward_type : ForwardBackwardType
  pub backward_type : ForwardBackwardType
  pub advance_type : AdvanceRegressType
  pub regress_type : AdvanceRegressType
  pub loop_count : ℤ
  pub do_advance_to : Bool
  pub advance_to : ℕ
  pub do_regress_to : Bool
  pub regress_to : ℕ
  pub local_time : ℕ
  pub length : ℕ
  pub current_loop : ℤ
  pub attached : Bool

-- `AnimationStage.from_stream`
unfoldable pub read_stage : Reader AnimationStage
read_stage = do
  animation_name ← read_safe_string
  (
    notify_flags,
    (
      forward,
      (
        backward,
        (
          advance,
          (regress, (loop_count, (do_advance_to, (advance_to, (do_regress_to, regress_to))))),
        ),
      ),
    ),
  ) ←
      stream_unpack animation_stage_footer
  (local_time, (length, (current_loop, attached))) ← stream_unpack animation_stage_footer_aux
  forward_type ← member forward_backward_type forward
  backward_type ← member forward_backward_type backward
  advance_type ← member advance_regress_type advance
  regress_type ← member advance_regress_type regress
  pure (record {
    animation_name = animation_name;
    notify_flags = notify_flags;
    forward_type = forward_type;
    backward_type = backward_type;
    advance_type = advance_type;
    regress_type = regress_type;
    loop_count = loop_count;
    do_advance_to = do_advance_to;
    advance_to = advance_to;
    do_regress_to = do_regress_to;
    regress_to = regress_to;
    local_time = local_time;
    length = length;
    current_loop = current_loop;
    attached = attached;
  })

-- `AnimationStage.CLASS_INDEX`
abbrev pub stage_class_index : ℕ
stage_class_index = 0x0371

unfoldable pub creatable_stage_from_stream : Reader AnimationStage
creatable_stage_from_stream = do
  class_index ← stream_unpack class_index_format
  check (class_index == stage_class_index) unknown_class
  read_stage

unfoldable pub write_stage : AnimationStage → Writer
write_stage s =
    write_safe_string s.animation_name
    ⊕ pack animation_stage_footer (
      s.notify_flags,
      (
        forward_backward_type.value s.forward_type,
        (
          forward_backward_type.value s.backward_type,
          (
            advance_regress_type.value s.advance_type,
            (
              advance_regress_type.value s.regress_type,
              (s.loop_count, (s.do_advance_to, (s.advance_to, (s.do_regress_to, s.regress_to)))),
            ),
          ),
        ),
      ),
    )
    ⊕ pack animation_stage_footer_aux (s.local_time, (s.length, (s.current_loop, s.attached)))

unfoldable pub write_creatable_stage : AnimationStage → Writer
write_creatable_stage s = pack class_index_format stage_class_index ⊕ write_stage s

-- `AvatarAnimationTask`
pub record AnimationTask : Type 0 where
  pub animation_name : Bytes
  pub initial_blend : ℕ
  pub target_blend : ℕ
  pub fade_speed : ℕ
  pub time : ℕ
  pub start : Bool
  pub loop : Bool
  pub attach : Bool

unfoldable pub read_animation_task : Reader AnimationTask
read_animation_task = do
  animation_name ← read_safe_string
  (initial_blend, (target_blend, (fade_speed, (time, (start, (loop, attach)))))) ←
      stream_unpack avatar_animation_task_footer
  pure (record {
    animation_name = animation_name;
    initial_blend = initial_blend;
    target_blend = target_blend;
    fade_speed = fade_speed;
    time = time;
    start = start;
    loop = loop;
    attach = attach;
  })

unfoldable pub write_animation_task : AnimationTask → Writer
write_animation_task t =
    write_safe_string t.animation_name
    ⊕ pack avatar_animation_task_footer
        (t.initial_blend, (t.target_blend, (t.fade_speed, (t.time, (t.start, (t.loop, t.attach))))))

-- `AvatarOneShotLinkTask`
pub record OneShotLinkTask : Type 0 where
  pub animation_name : Bytes
  pub marker_name : Bytes

unfoldable pub read_one_shot_link_task : Reader OneShotLinkTask
read_one_shot_link_task = do
  animation_name ← read_safe_string
  marker_name ← read_safe_string
  pure (record { animation_name = animation_name; marker_name = marker_name })

unfoldable pub write_one_shot_link_task : OneShotLinkTask → Writer
write_one_shot_link_task t = write_safe_string t.animation_name ⊕ write_safe_string t.marker_name
