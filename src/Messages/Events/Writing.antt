-- ===== src/Messages/Events/Writing.antt =====
-- The writers of notification events: `write_with_type` and `write` of each subclass of
-- `NotifyEvent` in src/nagus/pl_messages.py.
use nagus.Prelude.{
  Bytes, Bool, Option, [], ◌∷◌, true, ℕ, zero, suc, ◌+◌, ◌-◌, ◌*◌, ◌/◌, ◌%◌, ◌^◌, ltb, ◌==◌,
  if◌then◌else◌, ◌&&◌, ◌||◌,
}
use nagus.Prelude.Int.{ℤ, pos, negsuc}
use nagus.Stream.{ok, err, value_error, attribute_error, struct_error, Writer, ◌⊕◌, write_bool}
use nagus.Stream.Format.{i32, f32, pack}
use nagus.Structs.BitVector.{bit_length}
use nagus.Structs.SafeString.{write_safe_string}
use nagus.Structs.Uoid.{Uoid, write_key}
use nagus.Messages.Enums.General.{
  VariableType, variable_type, StageEvent, OfferEvent, float, key, int, stage_event, offer_event,
}
use nagus.Messages.Events.{
  Point3, VariableValue, int_value, float_value, uoid_value, NotifyEvent, collision, picked,
  variable, facing, contained, activate, callback, responder_state, multi_stage, spawned, coop,
  offer_linking_book, event_type, picked_event_footer, facing_event_footer, activate_event,
  multi_stage_event_header, coop_event, offer_linking_book_event_footer,
}

-- A natural number rounded to `bits` binary digits, to an even digit where it lies halfway.
unfoldable pub rounded : ℕ → ℕ → ℕ
rounded bits n =
    let s = bit_length n - bits in
    let q = n / 2 ^ s in
    let r = 2 * (n % 2 ^ s) in
    (if ltb (2 ^ s) r || (r == 2 ^ s && q % 2 == 1) then q + 1 else q) * 2 ^ s

-- A number that is not zero, with its sign bit, in the format "<f".
unfoldable pub write_magnitude : ℕ → ℕ → Writer
write_magnitude sign n =
    let m = rounded 24 (rounded 53 n) in
    let e = bit_length m - 1 in
    if ltb 127 e
    then err struct_error
    else pack (f32 ∷ []) (sign + (126 + e) * 2 ^ 23 + m * 2 ^ 23 / 2 ^ e)

-- `struct.pack` of an int with the format "<f", which takes it for a double first.
unfoldable pub write_single : ℤ → Writer
write_single (pos zero) = pack (f32 ∷ []) 0
write_single (pos (suc n)) = write_magnitude 0 (suc n)
write_single (negsuc n) = write_magnitude (2 ^ 31) (suc n)

-- The number that `VariableEvent.write` writes.
unfoldable pub write_number : VariableType → VariableValue → Writer
write_number float (float_value v) = pack (f32 ∷ []) v
write_number float (int_value v) = write_single v
write_number float _ = err value_error
write_number int (int_value v) = pack (i32 ∷ []) v
write_number int _ = err value_error
write_number _ (int_value v) = err value_error
write_number _ (float_value v) = err value_error
write_number _ _ = ok (0 ∷ 0 ∷ 0 ∷ 0 ∷ [])

-- The tests of the key, and the write of `self.key`, an attribute that no code assigns.
unfoldable pub write_variable_key : VariableType → VariableValue → Writer
write_variable_key key (int_value v) = err value_error
write_variable_key key (float_value v) = err value_error
write_variable_key key _ = err attribute_error
write_variable_key _ (uoid_value u) = err value_error
write_variable_key _ _ = err attribute_error

-- `write` of each subclass.
abbrev write_collision : Bool → Option Uoid → Option Uoid → Writer
write_collision enter hitter hittee = write_bool enter ⊕ write_key hitter ⊕ write_key hittee

abbrev write_picked : Option Uoid → Option Uoid → Bool → Point3 → Writer
write_picked picker picked_key enabled (x, y, z) =
    write_key picker ⊕ write_key picked_key ⊕ pack picked_event_footer (enabled, (x, (y, z)))

abbrev write_variable : Bytes → VariableType → VariableValue → Writer
write_variable name data_type value =
    write_safe_string name
    ⊕ pack (i32 ∷ []) (variable_type.value data_type)
    ⊕ write_number data_type value
    ⊕ write_variable_key data_type value

abbrev write_facing : Option Uoid → Option Uoid → ℕ → Bool → Writer
write_facing facer facee dot_product enabled =
    write_key facer ⊕ write_key facee ⊕ pack facing_event_footer (dot_product, enabled)

abbrev write_contained : Option Uoid → Option Uoid → Bool → Writer
write_contained contained_key container entering =
    write_key contained_key ⊕ write_key container ⊕ write_bool entering

abbrev write_activate : Bool → Writer
write_activate activated = pack activate_event (true, activated)

abbrev write_callback : ℤ → Writer
write_callback callback_type = pack (i32 ∷ []) callback_type

abbrev write_responder_state : ℤ → Writer
write_responder_state state = pack (i32 ∷ []) state

abbrev write_multi_stage : ℤ → StageEvent → Option Uoid → Writer
write_multi_stage stage event avatar =
    pack multi_stage_event_header (stage, stage_event.value event) ⊕ write_key avatar

abbrev write_spawned : Option Uoid → Option Uoid → Writer
write_spawned spawner spawnee = write_key spawner ⊕ write_key spawnee

abbrev write_coop : ℕ → ℕ → Writer
write_coop initiator_ki_number serial_number = pack coop_event (initiator_ki_number, serial_number)

abbrev write_offer_linking_book : Option Uoid → OfferEvent → ℕ → Writer
write_offer_linking_book offerer event offeree_ki_number =
    write_key offerer
    ⊕ pack offer_linking_book_event_footer (offer_event.value event, offeree_ki_number)

-- `write`, by the class of the event.
unfoldable pub write_event : NotifyEvent → Writer
write_event (collision enter hitter hittee) = write_collision enter hitter hittee
write_event (picked picker picked_key enabled hit_point) =
    write_picked picker picked_key enabled hit_point
write_event (variable name data_type value) = write_variable name data_type value
write_event (facing facer facee dot_product enabled) = write_facing facer facee dot_product enabled
write_event (contained contained_key container entering) =
    write_contained contained_key container entering
write_event (activate activated) = write_activate activated
write_event (callback callback_type) = write_callback callback_type
write_event (responder_state state) = write_responder_state state
write_event (multi_stage stage event avatar) = write_multi_stage stage event avatar
write_event (spawned spawner spawnee) = write_spawned spawner spawnee
write_event (coop initiator_ki_number serial_number) = write_coop initiator_ki_number serial_number
write_event (offer_linking_book offerer event offeree_ki_number) =
    write_offer_linking_book offerer event offeree_ki_number

-- `write_with_type`
unfoldable pub write_with_type : NotifyEvent → Writer
write_with_type e = pack (i32 ∷ []) (pos (event_type e)) ⊕ write_event e
