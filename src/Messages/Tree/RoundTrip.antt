-- ===== src/Messages/Tree/RoundTrip.antt =====
-- Writing and reading whole messages: `Message.creatable_to_stream` and `creatable_from_stream` of
-- src/nagus/pl_messages.py.
use nagus.Prelude.{refl, ◌≡◌, ◌==◌, false, [], ◌∷◌, All, ℕ, zero, suc, Option, none, some}
use nagus.Stream.{Reader, Writer, ok, ◌⊕◌}
use nagus.Stream.Format.{u16, pack, pack_field, le_bytes, stream_unpack, Reads-format}
use nagus.Stream.Reads.{Reads, Reads-bind, Reads-last, Reads-then, Reads-pure}
use nagus.Structs.SafeString.{IsSafe}
use nagus.Structs.Uoid.Reads.{KeyIsValid}
use nagus.Messages.Animation.{class_index_format}
use nagus.Messages.Header.{HeaderIsValid, header-Reads, write_header}
use nagus.Messages.Brain.Reads.{Given, TaskIsValid}
use nagus.Messages.Events.RoundTrip.{EventIsValid}
use nagus.Messages.Simple.Reads.{
  enable-Reads, server_reply-Reads, brain_message-Reads, notify-Reads, link_effects-Reads,
  particle_transfer-Reads, particle_kill-Reads, InterfaceMessageIsValid, interface_message-Reads,
  ki_message-Reads,
}
use nagus.Messages.Classes.{
  Body, plain, animation_command, load_clone, enable, server_reply, with_callbacks, avatar,
  avatar_task, avatar_seek, notify, link_effects, particle_transfer, particle_kill,
  avatar_input_state, input_interface_manager, ki, brain, load_avatar,
}
use nagus.Messages.Classes.RoundTrip.{
  LoadCloneIsValid, LoadAvatarIsValid, AnimationCommandIsValid, AvatarSeekIsValid, load_clone-Reads,
  task-Reads, load_avatar-Reads, callbacks-Reads, animation_command-Reads, avatar_seek-Reads,
}
use nagus.Messages.Tree.{
  MessageOf, body_class_index, class_by_index, read_class, creatable_with, write_body,
  creatable_to_with, Message, creatable_from_stream, creatable_to_stream, null_class_index,
}

abbrev pub BodyIsValid : {M : Type 0} → (M → Type 0) → Body M → Type 0
BodyIsValid P (animation_command m) = AnimationCommandIsValid P m
BodyIsValid P (load_clone m) = LoadCloneIsValid P m
BodyIsValid P (with_callbacks ms) = All (Given P) ms
BodyIsValid P (avatar_task t) = Given (TaskIsValid P) t
BodyIsValid P (avatar_seek m) = AvatarSeekIsValid P m
BodyIsValid P (notify m) = All EventIsValid m.events
BodyIsValid P (link_effects m) = KeyIsValid m.linker × KeyIsValid m.link_in_animation
BodyIsValid P (particle_transfer m) = KeyIsValid m.particle_system
BodyIsValid P (input_interface_manager m) = InterfaceMessageIsValid m
BodyIsValid P (ki m) = IsSafe m.sender_name
BodyIsValid P (load_avatar m) = LoadAvatarIsValid P m
BodyIsValid P _ = Unit

-- The keys and strings in a message, and in the messages inside it, are valid.
abbrev pub MessageIsValid : (depth : ℕ) → Message depth → Type 0
MessageIsValid zero m = ⊥
MessageIsValid (suc depth) m = HeaderIsValid m.header × BodyIsValid (MessageIsValid depth) m.body

null-Reads : Reads (ok (0x00 ∷ 0x80 ∷ [])) (stream_unpack class_index_format) null_class_index
unfolding pack pack_field le_bytes
null-Reads = Reads-format class_index_format null_class_index

module _ {M : Type 0} (r : Reader (Option M)) (w : Option M → Writer) (P : M → Type 0)
    (nested : (m : Option M) → Given P m → Reads (w m) r m) where
  -- The class of a body is found by its index, and reads what it wrote.
  body-Reads :
      (b : Body M)
      → BodyIsValid P b
      → (read_body : Reader (Body M)) × (class_by_index r (body_class_index b) ≡ some read_body)
        × (body_class_index b == null_class_index ≡ false)
        × Reads (write_body w b) read_body b
  unfolding class_by_index write_body
  body-Reads plain v = (_, refl, refl, Reads-pure plain)
  body-Reads (animation_command m) v =
      (_, refl, refl, Reads-last _ (animation_command-Reads r w P nested m v) refl)
  body-Reads (load_clone m) v =
      (_, refl, refl, Reads-last _ (load_clone-Reads r w P nested m v) refl)
  body-Reads (enable m) v = (_, refl, refl, Reads-last _ (enable-Reads m) refl)
  body-Reads (server_reply m) v = (_, refl, refl, Reads-last _ (server_reply-Reads m) refl)
  body-Reads (with_callbacks m) v =
      (_, refl, refl, Reads-last _ (callbacks-Reads r w P nested m v) refl)
  body-Reads avatar v = (_, refl, refl, Reads-pure avatar)
  body-Reads (avatar_task t) v = (_, refl, refl, Reads-last _ (task-Reads r w P nested t v) refl)
  body-Reads (avatar_seek m) v =
      (_, refl, refl, Reads-last _ (avatar_seek-Reads r w P nested m v) refl)
  body-Reads (notify m) v = (_, refl, refl, Reads-last _ (notify-Reads m v) refl)
  body-Reads (link_effects m) (v, v') =
      (_, refl, refl, Reads-last _ (link_effects-Reads m v v') refl)
  body-Reads (particle_transfer m) v =
      (_, refl, refl, Reads-last _ (particle_transfer-Reads m v) refl)
  body-Reads (particle_kill m) v = (_, refl, refl, Reads-last _ (particle_kill-Reads m) refl)
  body-Reads (avatar_input_state s) v =
      (_, refl, refl, Reads-last _ (Reads-format (u16 ∷ []) s) refl)
  body-Reads (input_interface_manager m) v =
      (_, refl, refl, Reads-last _ (interface_message-Reads m v) refl)
  body-Reads (ki m) v = (_, refl, refl, Reads-last _ (ki_message-Reads m v) refl)
  body-Reads (brain m) v = (_, refl, refl, Reads-last _ (brain_message-Reads m) refl)
  body-Reads (load_avatar m) v =
      (_, refl, refl, Reads-last _ (load_avatar-Reads r w P nested m v) refl)

  class-Reads :
      (m : MessageOf M)
      → HeaderIsValid m.header
      → (read_body : Reader (Body M)) → Reads (write_body w m.body) read_body m.body
      → Reads (write_header m.header ⊕ write_body w m.body) (read_class r (some read_body)) (some m)
  unfolding read_class
  class-Reads m v read_body h = Reads-bind _ (header-Reads m.header v) (Reads-last _ h refl)

  creatable_with-Reads :
      (m : Option (MessageOf M))
      → Given (λ m. HeaderIsValid m.header × BodyIsValid P m.body) m
      → Reads (creatable_to_with w m) (creatable_with r) m
  unfolding creatable_to_with creatable_with
  creatable_with-Reads none v = Reads-then _ null-Reads (Reads-pure none)
  creatable_with-Reads (some m) (v, v') =
      let (read_body, e, ne, h) = body-Reads m.body v' in
      Reads-bind _ (Reads-format class_index_format (body_class_index m.body))
        (rw (ne, e) (class-Reads m v read_body h))

-- A message of any of the 18 classes, or null, nested to any depth, with valid keys, safe
-- strings, the flag `is_valid` set where there is one, and no event that is a `VariableEvent`
-- or an `OfferLinkingBookEvent`: what `creatable_to_stream` writes, where it returns,
-- `creatable_from_stream` reads back as the same value, whatever follows it, and a proper
-- prefix of that makes the reader raise an exception.
pub creatable-Reads :
    (depth : ℕ) (m : Option (Message depth))
    → Given (MessageIsValid depth) m
    → Reads (creatable_to_stream depth m) (creatable_from_stream depth) m
unfolding creatable_to_stream creatable_from_stream
creatable-Reads zero none v = Reads-then _ null-Reads (Reads-pure none)
creatable-Reads zero (some m) v = absurd v
creatable-Reads (suc depth) m v =
    creatable_with-Reads _ _ (MessageIsValid depth) (creatable-Reads depth) m v
