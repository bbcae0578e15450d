-- ===== src/Messages/Enums/Avatar.antt =====
-- The `IntEnum` classes of animations, avatar brains and avatar messages in src/nagus/pl_messages.py.
use nagus.Prelude.{◌==◌, ℕ, ◌≡◌, refl, [], ◌∷◌, Option, some}
use nagus.Stream.Enums.{IntEnum, find_member}

-- `AnimationStage.ForwardBackwardType`
pub data ForwardBackwardType : Type 0 where
  none on_key automatic : ForwardBackwardType

abbrev pub forward_backward_type_value : ForwardBackwardType → ℕ
forward_backward_type_value none = 0
forward_backward_type_value on_key = 1
forward_backward_type_value automatic = 2

abbrev forward_backward_type_lookup : ℕ → Option ForwardBackwardType
forward_backward_type_lookup =
    find_member ◌==◌ forward_backward_type_value
      (ForwardBackwardType.none ∷ ForwardBackwardType.on_key ∷ ForwardBackwardType.automatic ∷ [])

pub forward_backward_type_lem :
    (t : ForwardBackwardType)
    → forward_backward_type_lookup (forward_backward_type_value t) ≡ some t
forward_backward_type_lem none = refl
forward_backward_type_lem _ = refl

abbrev pub forward_backward_type : IntEnum ℕ ForwardBackwardType
forward_backward_type = record {
  value = forward_backward_type_value;
  lookup = forward_backward_type_lookup;
  lookup-value = forward_backward_type_lem;
}

-- `AnimationStage.AdvanceRegressType`
pub data AdvanceRegressType : Type 0 where
  none on_move automatic on_any_key : AdvanceRegressType

abbrev pub advance_regress_type_value : AdvanceRegressType → ℕ
advance_regress_type_value none = 0
advance_regress_type_value on_move = 1
advance_regress_type_value automatic = 2
advance_regress_type_value on_any_key = 3

abbrev advance_regress_type_lookup : ℕ → Option AdvanceRegressType
advance_regress_type_lookup = find_member ◌==◌ advance_regress_type_value (
    AdvanceRegressType.none ∷ AdvanceRegressType.on_move ∷ AdvanceRegressType.automatic
    ∷ AdvanceRegressType.on_any_key ∷ [])

pub advance_regress_type_lem :
    (t : AdvanceRegressType) → advance_regress_type_lookup (advance_regress_type_value t) ≡ some t
advance_regress_type_lem none = refl
advance_regress_type_lem _ = refl

abbrev pub advance_regress_type : IntEnum ℕ AdvanceRegressType
advance_regress_type = record {
  value = advance_regress_type_value;
  lookup = advance_regress_type_lookup;
  lookup-value = advance_regress_type_lem;
}

-- `AvatarBrainGeneric.Type`
pub data BrainType : Type 0 where
  generic ladder sit sit_on_ground emote afk : BrainType

abbrev pub brain_type_value : BrainType → ℕ
brain_type_value generic = 0
brain_type_value ladder = 1
brain_type_value sit = 2
brain_type_value sit_on_ground = 3
brain_type_value emote = 4
brain_type_value afk = 5

abbrev brain_type_lookup : ℕ → Option BrainType
brain_type_lookup = find_member ◌==◌ brain_type_value (
    BrainType.generic ∷ BrainType.ladder ∷ BrainType.sit ∷ BrainType.sit_on_ground ∷ BrainType.emote
    ∷ BrainType.afk ∷ [])

pub brain_type_lem : (t : BrainType) → brain_type_lookup (brain_type_value t) ≡ some t
brain_type_lem generic = refl
brain_type_lem _ = refl

abbrev pub brain_type : IntEnum ℕ BrainType
brain_type = record {
  value = brain_type_value;
  lookup = brain_type_lookup;
  lookup-value = brain_type_lem;
}

-- `AvatarBrainGeneric.Mode`
pub data BrainMode : Type 0 where
  entering normal fading_in fading_out exit abort : BrainMode

abbrev pub brain_mode_value : BrainMode → ℕ
brain_mode_value entering = 1
brain_mode_value normal = 2
brain_mode_value fading_in = 3
brain_mode_value fading_out = 4
brain_mode_value exit = 5
brain_mode_value abort = 6

abbrev brain_mode_lookup : ℕ → Option BrainMode
brain_mode_lookup = find_member ◌==◌ brain_mode_value (
    BrainMode.entering ∷ BrainMode.normal ∷ BrainMode.fading_in ∷ BrainMode.fading_out
    ∷ BrainMode.exit ∷ BrainMode.abort ∷ [])

pub brain_mode_lem : (t : BrainMode) → brain_mode_lookup (brain_mode_value t) ≡ some t
brain_mode_lem entering = refl
brain_mode_lem _ = refl

abbrev pub brain_mode : IntEnum ℕ BrainMode
brain_mode = record {
  value = brain_mode_value;
  lookup = brain_mode_lookup;
  lookup-value = brain_mode_lem;
}

-- `AvatarBrainGeneric.MoveMode`
pub data MoveMode : Type 0 where
  absolute relative normal standstill : MoveMode

abbrev pub move_mode_value : MoveMode → ℕ
move_mode_value absolute = 0
move_mode_value relative = 1
move_mode_value normal = 2
move_mode_value standstill = 3

abbrev move_mode_lookup : ℕ → Option MoveMode
move_mode_lookup =
    find_member ◌==◌ move_mode_value
      (MoveMode.absolute ∷ MoveMode.relative ∷ MoveMode.normal ∷ MoveMode.standstill ∷ [])

pub move_mode_lem : (t : MoveMode) → move_mode_lookup (move_mode_value t) ≡ some t
move_mode_lem absolute = refl
move_mode_lem _ = refl

abbrev pub move_mode : IntEnum ℕ MoveMode
move_mode = record {
  value = move_mode_value;
  lookup = move_mode_lookup;
  lookup-value = move_mode_lem;
}

-- `AvatarBrainGeneric.BodyUsage`
pub data BodyUsage : Type 0 where
  unknown upper full lower : BodyUsage

abbrev pub body_usage_value : BodyUsage → ℕ
body_usage_value unknown = 0
body_usage_value upper = 1
body_usage_value full = 2
body_usage_value lower = 3

abbrev body_usage_lookup : ℕ → Option BodyUsage
body_usage_lookup =
    find_member ◌==◌ body_usage_value
      (BodyUsage.unknown ∷ BodyUsage.upper ∷ BodyUsage.full ∷ BodyUsage.lower ∷ [])

pub body_usage_lem : (t : BodyUsage) → body_usage_lookup (body_usage_value t) ≡ some t
body_usage_lem unknown = refl
body_usage_lem _ = refl

abbrev pub body_usage : IntEnum ℕ BodyUsage
body_usage = record {
  value = body_usage_value;
  lookup = body_usage_lookup;
  lookup-value = body_usage_lem;
}

-- `AvatarSeekMessage.AlignmentType`
pub data AlignmentType : Type 0 where
  handle handle_at_animation_end handle_with_world_origin bone bone_at_animation_end : AlignmentType

abbrev pub alignment_type_value : AlignmentType → ℕ
alignment_type_value handle = 0
alignment_type_value handle_at_animation_end = 1
alignment_type_value handle_with_world_origin = 2
alignment_type_value bone = 3
alignment_type_value bone_at_animation_end = 4

abbrev alignment_type_lookup : ℕ → Option AlignmentType
alignment_type_lookup = find_member ◌==◌ alignment_type_value (
    AlignmentType.handle ∷ AlignmentType.handle_at_animation_end
    ∷ AlignmentType.handle_with_world_origin ∷ AlignmentType.bone
    ∷ AlignmentType.bone_at_animation_end ∷ [])

pub alignment_type_lem :
    (t : AlignmentType) → alignment_type_lookup (alignment_type_value t) ≡ some t
alignment_type_lem handle = refl
alignment_type_lem _ = refl

abbrev pub alignment_type : IntEnum ℕ AlignmentType
alignment_type = record {
  value = alignment_type_value;
  lookup = alignment_type_lookup;
  lookup-value = alignment_type_lem;
}

-- `AvatarBrainGenericMessage.Type`
pub data BrainMessageType : Type 0 where
  next_stage previous_stage go_to_stage set_loop_count : BrainMessageType

abbrev pub brain_message_type_value : BrainMessageType → ℕ
brain_message_type_value next_stage = 0
brain_message_type_value previous_stage = 1
brain_message_type_value go_to_stage = 2
brain_message_type_value set_loop_count = 3

abbrev brain_message_type_lookup : ℕ → Option BrainMessageType
brain_message_type_lookup = find_member ◌==◌ brain_message_type_value (
    BrainMessageType.next_stage ∷ BrainMessageType.previous_stage ∷ BrainMessageType.go_to_stage
    ∷ BrainMessageType.set_loop_count ∷ [])

pub brain_message_type_lem :
    (t : BrainMessageType) → brain_message_type_lookup (brain_message_type_value t) ≡ some t
brain_message_type_lem next_stage = refl
brain_message_type_lem _ = refl

abbrev pub brain_message_type : IntEnum ℕ BrainMessageType
brain_message_type = record {
  value = brain_message_type_value;
  lookup = brain_message_type_lookup;
  lookup-value = brain_message_type_lem;
}
