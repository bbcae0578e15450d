-- ===== src/Messages/Animation/Reads.antt =====
-- Writing and reading the animation stages and tasks of src/nagus/pl_messages.py.
use nagus.Prelude.{refl}
use nagus.Messages.Animation.{
  AnimationStage, read_stage, creatable_stage_from_stream, write_stage, write_creatable_stage,
  AnimationTask, read_animation_task, write_animation_task, OneShotLinkTask,
  read_one_shot_link_task, write_one_shot_link_task, class_index_format, animation_stage_footer,
  animation_stage_footer_aux, avatar_animation_task_footer,
}
use nagus.Messages.Enums.Avatar.{forward_backward_type, advance_regress_type}
use nagus.Stream.Enums.{Reads-member}
use nagus.Stream.Format.{Reads-format}
use nagus.Stream.Reads.{Reads, Reads-bind, Reads-last, Reads-then, Reads-check, Reads-pure}
use nagus.Structs.SafeString.{IsSafe, safe_string-Reads}

pub stage-Reads :
    (s : AnimationStage) → IsSafe s.animation_name → Reads (write_stage s) read_stage s
unfolding write_stage read_stage
stage-Reads s v = Reads-bind _ (safe_string-Reads s.animation_name v) (
    Reads-bind _ (Reads-format animation_stage_footer _) (
      Reads-then _ (Reads-format animation_stage_footer_aux _) (
        Reads-member forward_backward_type _ s.forward_type (
          Reads-member forward_backward_type _ s.backward_type (
            Reads-member advance_regress_type _ s.advance_type
              (Reads-member advance_regress_type _ s.regress_type (Reads-pure s)))))))

pub creatable_stage-Reads :
    (s : AnimationStage)
    → IsSafe s.animation_name
    → Reads (write_creatable_stage s) creatable_stage_from_stream s
unfolding write_creatable_stage creatable_stage_from_stream
creatable_stage-Reads s v =
    Reads-bind _ (Reads-format class_index_format _) (Reads-check _ _ refl (stage-Reads s v))

pub animation_task-Reads :
    (t : AnimationTask)
    → IsSafe t.animation_name
    → Reads (write_animation_task t) read_animation_task t
unfolding write_animation_task read_animation_task
animation_task-Reads t v =
    Reads-bind _ (safe_string-Reads t.animation_name v)
      (Reads-last _ (Reads-format avatar_animation_task_footer _) refl)

pub one_shot_link_task-Reads :
    (t : OneShotLinkTask)
    → IsSafe t.animation_name
    → IsSafe t.marker_name
    → Reads (write_one_shot_link_task t) read_one_shot_link_task t
unfolding write_one_shot_link_task read_one_shot_link_task
one_shot_link_task-Reads t v v' =
    Reads-bind _ (safe_string-Reads t.animation_name v)
      (Reads-last _ (safe_string-Reads t.marker_name v') refl)
