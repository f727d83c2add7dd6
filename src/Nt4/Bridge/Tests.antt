-- ===== src/Nt4/Bridge/Tests.antt =====
-- The bridge of apps/control/src/nt4-auto.ts on a concrete chooser: attached, announced, filled by
-- the server, and selected.
use code_runner.Prelude.{
  ℕ, String, List, [], ◌∷◌, none, some, true, false, ◌≡◌, refl, get, put, arith,
}
use code_runner.Prelude.Texts.{Text, codes, before_suffix}
use code_runner.Prelude.Keyed.{get_by, put_by, has_by, add_by}
use code_runner.Json.{Json, nil, cons, end, field, str, obj, prop}
use code_runner.HalSim.{connected, open_}
use code_runner.Nt4.Number.{whole, of_bits, same_number}
use code_runner.Nt4.MsgPack.{count, Value, arr, Values, item, encode_msg_pack}
use code_runner.Nt4.MsgPack.RoundTrip.{IsEncodable}
use code_runner.Nt4.MsgPack.Tests.{ascii}
use code_runner.Nt4.Topics.{
  normalize_topic_name, publish_topic_name, ValuesByName, AutoChooser, read_string, value_of,
}
use code_runner.Nt4.Entry.{
  command_of, begin_message, apply, Topic, Entry, text_frame, binary_frame, create_entry,
  unannounce, handle_message,
}
use code_runner.Nt4.Announced.{Agree, FreshRaw, handle_message-Agree}
use code_runner.Nt4.Values.{unannounced-value, handle_message-row}
use code_runner.Nt4.Bridge.{
  Bridge, Platform, Target, url, Snapshot, snapshot_from_entry, upstream_url_for, ensure_connected,
}
use code_runner.Nt4.Bridge.Calls.{ok, AutoChooserPatch, opens, message, select}
use code_runner.Nt4.Bridge.Select.{Answer, select-Answer, select-read_string}
use code_runner.Nt4.Bridge.Coherent.{AllCoherent}
use code_runner.Nt4.Bridge.Reach.{Call, ensure, event, run_all, new_bridge, run_all-AllCoherent}

normalize_all :
    (normalize_topic_name (codes "NT:/Shop/x") ≡ codes "Shop/x")
    × (normalize_topic_name (codes "//x") ≡ codes "x")
    × (normalize_topic_name (codes "NTable/x") ≡ codes "able/x")
unfolding normalize_topic_name
normalize_all = (refl, refl, refl)

abbrev announcement : Json → String → Json
announcement id name = obj (
    field "method" (str "announce") (
      field "params" (obj (field "id" id (field "name" (str name) (field "type" (str "t") end))))
        end))

-- Every text frame announces two topics of a chooser, with the ids 5 and 6.
abbrev platform : Platform
platform = record {
  codec = ascii;
  parse_json = λ s. some (
      Json.arr (
        cons (announcement (Json.num 0x4014000000000000) "/A/options")
          (cons (announcement (Json.num 0x4018000000000000) "/A/.type") nil)));
  sort = λ key choosers. choosers;
}

abbrev options : Value
options = arr (item (Value.str (codes "Left")) (item (Value.str (codes "Right")) Values.end))

abbrev row_of : ℕ → Value → Value
row_of id v = arr (
    item (Value.num (whole id))
      (item (Value.num (whole 0)) (item (Value.num (whole 20)) (item v Values.end))))

abbrev target : Target
target = url (codes "ws://sim")

abbrev calls : List Call
calls =
    ensure 7 target
    ∷ event 7 0 opens
    ∷ event 7 0 (message 10 (text_frame []))
    ∷ event 7 0 (message 20 (binary_frame (encode_msg_pack ascii (row_of 5 options))))
    ∷ event 7 0 (
        message 20
          (binary_frame (encode_msg_pack ascii (row_of 6 (Value.str (codes "String Chooser"))))))
    ∷ []

abbrev topic : ℕ → Text → Topic
topic id name = record { id = whole id; name = name; type = codes "t" }

-- What is left of the chooser after such frames.
abbrev filled : Entry
filled = record {
  upstream_url = codes "ws://sim";
  socket = some 0;
  connection = connected;
  connected = true;
  stale = false;
  last_message_at = some 20;
  error = none;
  topics_by_id = (whole 5, topic 5 (codes "A/options")) ∷ (whole 6, topic 6 (codes "A/.type")) ∷ [];
  topics_by_name =
      (codes "A/options", topic 5 (codes "A/options"))
      ∷ (codes "A/.type", topic 6 (codes "A/.type"))
      ∷ [];
  values_by_name =
      (codes "A/options", options) ∷ (codes "A/.type", Value.str (codes "String Chooser")) ∷ [];
  published_topics = [];
}

abbrev chosen_values : ValuesByName
chosen_values = (codes "A/selected", Value.str (codes "Right")) ∷ filled.values_by_name

abbrev ready : Bridge
ready = record { entries = (7, filled) ∷ []; sockets = λ s. open_; next_socket = 1; sent = [] }

abbrev patch : AutoChooserPatch
patch = record { key = codes "A"; selected = codes "Right" }

abbrev shown : AutoChooser
shown = record {
  key = codes "A";
  display_key = codes "A";
  options = codes "Left" ∷ codes "Right" ∷ [];
  default = none;
  active = none;
  selected = some (codes "Right");
}

abbrev snapshot : Snapshot
snapshot = record {
  nt4 = record {
    connection = connected;
    connected = true;
    stale = false;
    last_message_at = some 30;
    error = none;
  };
  choosers = shown ∷ [];
}

abbrev chosen : Bridge
chosen = (select platform 7 target 30 99 patch ready).0

chosen_there : select platform 7 target 30 99 patch ready ≡ (chosen, ok snapshot)
unfolding select get put snapshot_from_entry upstream_url_for normalize_topic_name before_suffix
    add_by get_by put_by has_by publish_topic_name
chosen_there = refl

key_kept : normalize_topic_name (codes "A") ≡ codes "A"
unfolding normalize_topic_name
key_kept = refl

select-read_string_example :
    (last : Entry) × (get 7 chosen.entries ≡ some last)
    × (read_string last.values_by_name (codes "A") (codes "selected") ≡ some (codes "Right"))
select-read_string_example =
    select-read_string 7 target 30 99 platform patch ready chosen snapshot key_kept (λ e. cc)
      chosen_there

run_all-AllCoherent_example : AllCoherent (run_all platform calls new_bridge).entries
run_all-AllCoherent_example = run_all-AllCoherent platform calls

abbrev fresh_entry : Entry
fresh_entry = create_entry (codes "ws://sim")

fresh_entry-Agree : Agree fresh_entry
unfolding create_entry get_by
fresh_entry-Agree = record { by_id = λ k v h. cc; by_name = λ k v h. cc }

both_fresh : FreshRaw platform.parse_json 10 (text_frame []) fresh_entry
unfolding create_entry get_by command_of prop begin_message apply put_by of_bits
    normalize_topic_name
both_fresh = ((refl, refl), ((refl, refl), tt))

handle_message-Agree_example :
    Agree (handle_message platform.parse_json ascii 10 (text_frame []) fresh_entry).0
handle_message-Agree_example =
    handle_message-Agree platform.parse_json ascii 10 (text_frame []) fresh_entry both_fresh
      fresh_entry-Agree

abbrev announced_entry : Entry
announced_entry = (handle_message platform.parse_json ascii 10 (text_frame []) fresh_entry).0

unannounced-value_example :
    value_of
      (handle_message platform.parse_json ascii 20
        (binary_frame (encode_msg_pack ascii (row_of 5 options)))
        (unannounce (codes "A/options") announced_entry)).0.values_by_name
      (codes "A/options")
    ≡ none
unannounced-value_example =
    unannounced-value platform.parse_json ascii 20 (encode_msg_pack ascii (row_of 5 options))
      (codes "A/options") announced_entry handle_message-Agree_example

row_of-IsEncodable : IsEncodable ascii (row_of 5 options)
unfolding count
row_of-IsEncodable = (
  omega arith,
  (
    omega arith,
    (
      omega arith,
      (omega arith, ((omega arith, ((omega arith, refl), ((omega arith, refl), tt))), tt)),
    ),
  ),
)

topic_there : get_by same_number (whole 5) filled.topics_by_id ≡ some (topic 5 (codes "A/options"))
unfolding get_by
topic_there = refl

handle_message-row_example :
    value_of
      (handle_message platform.parse_json ascii 20
        (binary_frame (encode_msg_pack ascii (row_of 5 options)))
        filled).0.values_by_name
      (codes "A/options")
    ≡ some options
handle_message-row_example =
    handle_message-row platform.parse_json ascii 20 5 (Value.num (whole 0)) (Value.num (whole 20))
      options (topic 5 (codes "A/options")) (codes "A/options") filled row_of-IsEncodable
      topic_there

select-Answer_example :
    Answer 7 30 platform patch filled ready (select platform 7 target 30 99 patch ready)
unfolding ensure_connected get select snapshot_from_entry upstream_url_for
select-Answer_example = select-Answer 7 target 30 99 platform patch ready
