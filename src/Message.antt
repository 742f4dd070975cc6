-- ===== src/Message.antt =====
-- src/communicate/message.cpp and src/communicate/option.cpp: the options of a message, its head
-- and its data. Each message owns its options here: two copies of one message in the program share
-- the strings of their options.
pub mod Laws
use net_cpp.Base.{
  ℕ, ◌≡◌, Bool, true, false, List, [], ◌∷◌, ◌++◌, Bytes, codes, string_eq, ℤ, pos, negsuc, length,
  if◌then◌else◌,
}
use net_cpp.Number.{decimal}
use net_cpp.Outcome.{Outcome, ok, throws, thrown_pointer}

-- `Option`
pub record MessageOption : Type 0 where
  pub key : Bytes
  pub value : Bytes

pub record Message : Type 0 where
  pub tid : ℤ
  pub version : ℤ
  pub type : ℤ
  pub options : List MessageOption
  pub data_bytes : Bytes

abbrev pub msg_version : ℤ
msg_version = pos 0

abbrev pub msg_head : Bytes
msg_head = codes "MSG"

abbrev pub msg_tail : Bytes
msg_tail = codes "GSM"

-- The loop of `addOption` over the options: the first with this key takes the value.
unfoldable pub add_to : Bytes → Bytes → List MessageOption → List MessageOption
unfolding string_eq
add_to k v [] = record { key = k; value = v } ∷ []
add_to k v (o ∷ os) = if string_eq o.key k then record o { value = v } ∷ os else o ∷ add_to k v os

-- `Message::addOption`
unfoldable pub add_option : Bytes → Bytes → Message → Message
unfolding add_to
add_option k v m = record m { options = add_to k v m.options }

unfoldable pub value_in : Bytes → List MessageOption → Outcome Bytes
unfolding string_eq
value_in k [] = throws thrown_pointer
value_in k (o ∷ os) = if string_eq o.key k then ok o.value else value_in k os

-- `Message::getValue`: with no such key it throws a pointer to a `std::runtime_error`.
unfoldable pub get_value : Bytes → Message → Outcome Bytes
unfolding value_in
get_value k m = value_in k m.options

-- `Message::pushData`: the bytes go to the end, and the option "size" counts all of them.
unfoldable pub push_data : Bytes → Message → Message
unfolding add_option decimal
push_data buf m =
    add_option (codes "size") (decimal (length (m.data_bytes ++ buf)))
      (record m { data_bytes = m.data_bytes ++ buf })

-- `Message::clear`
unfoldable pub clear : Message → Message
clear m = record m { tid = pos 0; type = pos 1; options = []; data_bytes = [] }

-- `Message::setHead`
unfoldable pub set_head : ℤ → ℤ → Message → Message
set_head tid type m = record m { tid = tid; type = type }

-- The constructor: `now` is the text that `strftime` gives for the time of the call.
unfoldable pub new_message : Bytes → Message
unfolding add_option
new_message now =
    add_option (codes "date") now (record {
      tid = negsuc 0;
      version = msg_version;
      type = pos 0;
      options = [];
      data_bytes = [];
    })
