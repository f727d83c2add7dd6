-- ===== src/Nt4/Entry.antt =====
-- Nt4AutoEntry and the handling of the server's frames in apps/control/src/nt4-auto.ts. `JSON.parse`
-- and the text codecs are parameters.
use Prim.Native.String.{String}
use text.Mathlib.Text.{◌==◌ as str_eq}
use code_runner.Prelude.{ℕ, List, [], Option, none, some, Bool, true, false, if◌then◌else◌, ◌>>=◌}
use code_runner.Prelude.Texts.{Text, codes, same}
use code_runner.Prelude.Keyed.{get_by, put_by, delete_by}
use code_runner.Json.{Json, null, str, arr, obj, Items, nil, cons, prop}
use code_runner.HalSim.{BridgeConnection, disconnected}
use code_runner.Nt4.Number.{Number, of_bits, is_negative, same_number}
use code_runner.Nt4.MsgPack.{
  TextCodec, Value, Values, end, item, Decoded, ok, malformed, array_too_large, map_too_large,
  unsupported, stuck, decode_msg_pack,
}
use code_runner.Nt4.Topics.{ValuesByName, normalize_topic_name}

pub record Topic : Type 0 where
  pub id : Number
  pub name : Text
  pub type : Text

pub record Entry : Type 0 where
  pub upstream_url : Text
  pub socket : Option ℕ
  pub connection : BridgeConnection
  pub connected : Bool
  pub stale : Bool
  pub last_message_at : Option ℕ
  pub error : Option Text
  pub topics_by_id : List (Number × Topic)
  pub topics_by_name : List (Text × Topic)
  pub values_by_name : ValuesByName
  pub published_topics : List (Text × Topic)

unfoldable pub create_entry : Text → Entry
create_entry upstream_url = record {
  upstream_url = upstream_url;
  socket = none;
  connection = disconnected;
  connected = false;
  stale = true;
  last_message_at = none;
  error = none;
  topics_by_id = [];
  topics_by_name = [];
  values_by_name = [];
  published_topics = [];
}

-- `value[key]`: the outer `none` where that throws, the inner one for `undefined`.
abbrev pub member : Option Json → String → Option (Option Json)
member none key = none
member (some null) key = none
member (some (obj fields)) key = some (prop key fields)
member (some _) key = some none

abbrev pub is_string : Option Json → String → Bool
is_string (some (str s)) t = str_eq s t
is_string _ t = false

unfoldable pub announce : Topic → Entry → Entry
announce topic e = record e {
  topics_by_id = put_by same_number topic.id topic e.topics_by_id;
  topics_by_name = put_by same topic.name topic e.topics_by_name;
}

-- `if (topic) entry.topicsById.delete(topic.id)`
abbrev pub forget : Option Topic → List (Number × Topic) → List (Number × Topic)
forget none topics = topics
forget (some topic) topics = delete_by same_number topic.id topics

unfoldable pub unannounce : Text → Entry → Entry
unannounce name e = record e {
  topics_by_id = forget (get_by same name e.topics_by_name) e.topics_by_id;
  topics_by_name = delete_by same name e.topics_by_name;
  values_by_name = delete_by same name e.values_by_name;
}

-- What a message asks for.
pub data Command : Type 0 where
  announces : Topic → Command
  unannounces : Text → Command
  ignored : Command

abbrev announced : Option Json → Option Json → Option Json → Command
announced (some (Json.num id)) (some (str name)) (some (str type)) =
    announces
      (record { id = of_bits id; name = normalize_topic_name (codes name); type = codes type })
announced id name type = ignored

abbrev unannounced : Option Json → Command
unannounced (some (str name)) = unannounces (normalize_topic_name (codes name))
unannounced name = ignored

abbrev announce_params : Option Json → Option Command
announce_params params = do
  id ← member params "id"
  name ← member params "name"
  type ← member params "type"
  some (announced id name type)

abbrev unannounce_params : Option Json → Option Command
unannounce_params params = do name ← member params "name"; some (unannounced name)

-- `none` where reading the message throws.
unfoldable pub command_of : Json → Option Command
command_of message = do
  method ← member (some message) "method"
  if is_string method "announce"
      then member (some message) "params" >>= announce_params
      else if is_string method "unannounce"
      then member (some message) "params" >>= unannounce_params
      else some ignored

unfoldable pub apply : Command → Entry → Entry
unfolding announce unannounce
apply (announces topic) e = announce topic e
apply (unannounces name) e = unannounce name e
apply ignored e = e

-- A command, where the message could be read, and what follows it. Reading a message changes
-- nothing, so one that throws leaves the entry as it is.
abbrev pub run_command : Option Command → (Entry → Entry × Bool) → Entry → Entry × Bool
run_command none rest e = (e, false)
run_command (some command) rest e = rest (apply command e)

-- The loop over the messages: the entry after it, and whether the loop has run to its end.
unfoldable pub handle_texts : Items → Entry → Entry × Bool
unfolding command_of apply
handle_texts nil e = (e, true)
handle_texts (cons message rest) e = run_command (command_of message) (handle_texts rest) e

-- The first and the fourth item, where there are four.
abbrev pub row : Value → Option (Value × Value)
row (Value.arr (item a (item b (item c (item d rest))))) = some (a, d)
row _ = none

abbrev pub set_value : Option Topic → Value → ValuesByName → ValuesByName
set_value none value values = values
set_value (some topic) value values = put_by same topic.name value values

abbrev pub set_row : List (Number × Topic) → Option (Value × Value) → ValuesByName → ValuesByName
set_row topics (some (Value.num id, value)) values =
    if is_negative id then values else set_value (get_by same_number id topics) value values
set_row topics _ values = values

-- One round of the loop over what a binary frame holds.
unfoldable pub handle_item : List (Number × Topic) → Value → ValuesByName → ValuesByName
handle_item topics v values = set_row topics (row v) values

unfoldable pub handle_items : List (Number × Topic) → Values → ValuesByName → ValuesByName
unfolding handle_item
handle_items topics end values = values
handle_items topics (item v vs) values = handle_items topics vs (handle_item topics v values)

pub data Raw : Type 0 where
  text_frame : Text → Raw
  binary_frame : List ℕ → Raw

-- The messages are the decoder's; 0xc1 is the one marker that it does not support.
abbrev failed : Text → Entry → Entry
failed message e = record e { error = some message }

unfoldable pub handle_binary : Decoded Values → Entry → Entry
unfolding handle_items
handle_binary (ok items) e = record e {
  values_by_name = handle_items e.topics_by_id items e.values_by_name;
}
handle_binary malformed e = failed (codes "Malformed MsgPack frame.") e
handle_binary array_too_large e = failed (codes "MsgPack array is too large.") e
handle_binary map_too_large e = failed (codes "MsgPack map is too large.") e
handle_binary unsupported e = failed (codes "Unsupported MsgPack marker 0xc1.") e
handle_binary stuck e = e

unfoldable pub handle_json : Option Json → Entry → Entry × Bool
unfolding handle_texts
handle_json none e = (e, false)
handle_json (some (arr messages)) e = handle_texts messages e
handle_json (some _) e = (e, true)

unfoldable pub begin_message : ℕ → Entry → Entry
begin_message now e = record e { last_message_at = some now; stale = false; error = none }

-- `handleMessage` at the time `now`; the flag is false where it throws.
unfoldable pub handle_message : (Text → Option Json) → TextCodec → ℕ → Raw → Entry → Entry × Bool
unfolding handle_json handle_binary begin_message
handle_message parse_json t now (text_frame s) e = handle_json (parse_json s) (begin_message now e)
handle_message parse_json t now (binary_frame frame) e =
    (handle_binary (decode_msg_pack t frame) (begin_message now e), true)
