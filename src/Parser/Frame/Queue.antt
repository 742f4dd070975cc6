-- ===== src/Parser/Frame/Queue.antt =====
-- `parse` on a whole message.
use net_cpp.Base.{◌≡◌, List, [], ◌∷◌, ◌++◌, Bytes, codes}
use net_cpp.Number.{to_string}
use net_cpp.Message.{MessageOption, Message, msg_tail}
use net_cpp.Factory.Encode.{head_text, push_options}
use net_cpp.Factory.Checksum.{checksum}
use net_cpp.Factory.RoundTrip.Options.{lines}
use net_cpp.Parser.{Parser}

-- A message with its first option the date, as the constructor makes it.
abbrev pub IsDated : Message → Type 0
IsDated s =
    (date : Bytes) × (os : List MessageOption) × (s.options
      ≡ record { key = codes "date"; value = date } ∷ os)

module _ (s : Message) where
  -- The option lines.
  abbrev pub option_bytes : Bytes
  option_bytes = push_options s.options []

  abbrev pub data_bytes_on : Bytes
  data_bytes_on = s.data_bytes ++ (b'\r' ∷ b'\n' ∷ msg_tail)

  -- The bytes of a message whose checksum is that of its option lines alone.
  abbrev pub frame : Bytes
  frame =
      head_text s
      ++ lines s.options
          (to_string (checksum option_bytes) ++ (b'\r' ∷ b'\n' ∷ b'\r' ∷ b'\n' ∷ data_bytes_on))
