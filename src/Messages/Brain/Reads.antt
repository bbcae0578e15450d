-- ===== src/Messages/Brain/Reads.antt =====
-- Writing and reading the avatar brains and tasks of src/nagus/pl_messages.py.
use nagus.Prelude.{refl, replicate, All, [], ◌∷◌, Option, none, some}
use nagus.Stream.{Reader, Writer}
use nagus.Stream.Enums.{Reads-member}
use nagus.Stream.Format.{u32, Reads-format}
use nagus.Stream.Reads.{
  Reads, Reads-bind, Reads-last, Reads-then, Reads-check, Reads-exact, Reads-literal, Reads-many,
  Reads-pure,
}
use nagus.Structs.SafeString.{IsSafe}
use nagus.Structs.Uoid.Reads.{KeyIsValid, key-Reads}
use nagus.Messages.Animation.{class_index_format}
use nagus.Messages.Animation.Reads.{
  creatable_stage-Reads, animation_task-Reads, one_shot_link_task-Reads,
}
use nagus.Messages.Brain.{
  Brain, AvatarTask, animation, one_shot_link, task_brain, read_present, read_brain,
  creatable_brain_from_stream, creatable_task_from_stream, write_present, write_brain,
  write_creatable_brain, write_creatable_task, avatar_brain_generic_mid_1,
  avatar_brain_generic_mid_2,
}
use nagus.Messages.Enums.Avatar.{brain_type, brain_mode, move_mode, body_usage}

-- What holds of a value, if there is one.
abbrev pub Given {ℓ} : {A : Type 0} → (A → Type ℓ) → Option A → Type ℓ
Given P none = Unit
Given P (some a) = P a

pub record BrainIsValid {M : Type 0} (P : M → Type 0) (b : Brain M) : Type 0 where
  pub stages_are_valid : All (λ s. IsSafe (s.animation_name)) b.stages
  pub start_is_valid : Given P b.start_message
  pub end_is_valid : Given P b.end_message
  pub recipient_is_valid : KeyIsValid b.recipient

abbrev pub TaskIsValid : {M : Type 0} → (M → Type 0) → AvatarTask M → Type 0
TaskIsValid P (animation t) = IsSafe t.animation_name
TaskIsValid P (one_shot_link t) = IsSafe t.animation_name × IsSafe t.marker_name
TaskIsValid P (task_brain b) = BrainIsValid P b

module _ {M : Type 0} (r : Reader (Option M)) (w : Option M → Writer) (P : M → Type 0)
    (nested : (m : Option M) → Given P m → Reads (w m) r m) where
  present-Reads : (m : Option M) → Given P m → Reads (write_present w m) (read_present r) m
  unfolding write_present read_present
  present-Reads none v = Reads-then _ (Reads-literal 0) (Reads-pure none)
  present-Reads (some m) v = Reads-bind _ (Reads-literal 1) (Reads-last _ (nested (some m) v) refl)

  brain-Reads : (b : Brain M) → BrainIsValid P b → Reads (write_brain w b) (read_brain r) b
  unfolding write_brain read_brain
  brain-Reads b v = Reads-bind _ (Reads-exact 21 (replicate 21 0) refl) (
      Reads-check _ _ refl (
        Reads-bind _ (Reads-format (u32 ∷ []) _) (
          Reads-bind _ (Reads-many _ creatable_stage-Reads b.stages v.stages_are_valid) (
            Reads-bind _ (Reads-format avatar_brain_generic_mid_1 _) (
              Reads-member brain_type _ b.type (
                Reads-member brain_mode _ b.mode (
                  Reads-bind _ (present-Reads b.start_message v.start_is_valid) (
                    Reads-bind _ (present-Reads b.end_message v.end_is_valid) (
                      Reads-bind _ (Reads-format avatar_brain_generic_mid_2 _) (
                        Reads-member move_mode _ b.move_mode (
                          Reads-member body_usage _ b.body_usage (
                            Reads-last _ (key-Reads b.recipient v.recipient_is_valid)
                              refl))))))))))))

  creatable_brain-Reads :
      (b : Brain M)
      → BrainIsValid P b
      → Reads (write_creatable_brain w b) (creatable_brain_from_stream r) b
  unfolding write_creatable_brain creatable_brain_from_stream
  creatable_brain-Reads b v =
      Reads-bind _ (Reads-format class_index_format _) (Reads-check _ _ refl (brain-Reads b v))

  -- A valid avatar task of any of the three classes, over messages that are read back as they
  -- were written: what `write_creatable_task` writes, where it returns,
  -- `creatable_task_from_stream` reads back as the same value, whatever follows it, and a
  -- proper prefix of that makes the reader raise an exception.
  pub creatable_task-Reads :
      (t : AvatarTask M)
      → TaskIsValid P t
      → Reads (write_creatable_task w t) (creatable_task_from_stream r) t
  unfolding write_creatable_task creatable_task_from_stream
  creatable_task-Reads (animation t) v =
      Reads-bind _ (Reads-format class_index_format _)
        (Reads-last _ (animation_task-Reads t v) refl)
  creatable_task-Reads (one_shot_link t) (v, v') =
      Reads-bind _ (Reads-format class_index_format _)
        (Reads-last _ (one_shot_link_task-Reads t v v') refl)
  creatable_task-Reads (task_brain b) v =
      Reads-bind _ (Reads-format class_index_format _)
        (Reads-last _ (creatable_brain-Reads b v) refl)
