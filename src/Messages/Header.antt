-- ===== src/Messages/Header.antt =====
-- The fields that every `Message` of src/nagus/pl_messages.py has.
use nagus.Prelude.{ℕ, refl, List, [], ◌∷◌, Option, length, All}
use nagus.Prelude.Int.{ℤ, pos, negsuc}
use nagus.Stream.{Reader, pure, ◌>>=◌, Writer, ◌⊕◌, read_many, write_all}
use nagus.Stream.Format.{Format, u32, i32, f64, pack, stream_unpack, Reads-format}
use nagus.Stream.Reads.{Reads, Reads-bind, Reads-last, Reads-many}
use nagus.Structs.Uoid.{Uoid, read_key, write_key}
use nagus.Structs.Uoid.Reads.{KeyIsValid, key-Reads}

abbrev pub plasma_message_header_end : Format
plasma_message_header_end = f64 ∷ u32 ∷ []

pub record Header : Type 0 where
  pub sender : Option Uoid
  pub receivers : List (Option Uoid)
  pub timestamp : ℕ
  pub flags : ℕ

-- How often `range(count)` loops.
abbrev pub rounds : ℤ → ℕ
rounds (pos n) = n
rounds (negsuc n) = 0

-- `Message.read`
unfoldable pub read_header : Reader Header
read_header = do
  sender ← read_key
  receiver_count ← stream_unpack (i32 ∷ [])
  receivers ← read_many (rounds receiver_count) read_key
  (timestamp, flags) ← stream_unpack plasma_message_header_end
  pure (record { sender = sender; receivers = receivers; timestamp = timestamp; flags = flags })

-- `Message.write`
unfoldable pub write_header : Header → Writer
write_header h =
    write_key h.sender
    ⊕ pack (i32 ∷ []) (pos (length h.receivers))
    ⊕ write_all write_key h.receivers
    ⊕ pack plasma_message_header_end (h.timestamp, h.flags)

pub record HeaderIsValid (h : Header) : Type 0 where
  pub sender_is_valid : KeyIsValid h.sender
  pub receivers_are_valid : All KeyIsValid h.receivers

-- The fields that all messages have, with valid keys: what `write_header` writes, where it
-- returns, `read_header` reads back as the same value, whatever follows it, and a proper prefix
-- of that makes the reader raise an exception.
pub header-Reads : (h : Header) → HeaderIsValid h → Reads (write_header h) read_header h
unfolding write_header read_header
header-Reads h v = Reads-bind _ (key-Reads h.sender v.sender_is_valid) (
    Reads-bind _ (Reads-format (i32 ∷ []) _) (
      Reads-bind _ (Reads-many KeyIsValid key-Reads h.receivers v.receivers_are_valid)
        (Reads-last _ (Reads-format plasma_message_header_end _) refl)))
