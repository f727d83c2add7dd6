-- ===== src/Nt4/Values.antt =====
-- The values that apps/control/src/nt4-auto.ts keeps by name, and the binary frames that set them.
use code_runner.Prelude.{
  ℕ, List, Option, none, some, false, ◌≡◌, refl, sym, ap, ◌∙◌, inl, inr, Bool-cases, if◌then◌else◌,
}
use code_runner.Prelude.Texts.{Text, same, same_refl, same→eq}
use code_runner.Prelude.Keyed.{get_by, get_by-put_by, get_by-delete_by}
use code_runner.Json.{Json}
use code_runner.Nt4.Number.{Number, whole, same_number, is_negative}
use code_runner.Nt4.MsgPack.{
  TextCodec, Value, Values, num, arr, end, item, Decoded, ok, malformed, array_too_large,
  map_too_large, unsupported, stuck, decode_msg_pack, encode_msg_pack,
}
use code_runner.Nt4.MsgPack.RoundTrip.{IsEncodable, decode_msg_pack-encode_msg_pack}
use code_runner.Nt4.Topics.{ValuesByName, value_of}
use code_runner.Nt4.Entry.{
  Topic, Entry, binary_frame, unannounce, handle_item, handle_items, handle_binary, begin_message,
  handle_message, set_value, row, set_row,
}
use code_runner.Nt4.Announced.{Agree, unannounce-Agree}

-- No id leads to a topic of this name.
Unused : List (Number × Topic) → Text → Type 0
Unused topics name =
    (id : Number) (topic : Topic)
    → get_by same_number id topics ≡ some topic
    → same topic.name name ≡ false

set_value-Unused :
    (topics : List (Number × Topic)) (name : Text) (id : Number) (o : Option Topic) (v : Value)
    (values : ValuesByName)
    → Unused topics name
    → get_by same_number id topics ≡ o
    → value_of (set_value o v values) name ≡ value_of values name
unfolding Unused
set_value-Unused topics name id none v values unused h = refl
set_value-Unused topics name id (some topic) v values unused h =
    get_by-put_by same same→eq topic.name name v values ∙ rw (unused id topic h) refl

set_row-Unused :
    (topics : List (Number × Topic)) (name : Text) (o : Option (Value × Value))
    (values : ValuesByName)
    → Unused topics name
    → value_of (set_row topics o values) name ≡ value_of values name
set_row-Unused topics name none values unused = refl
set_row-Unused topics name (some (Value.num id, v)) values unused =
    elim (Bool-cases (is_negative id)) [
      | inl e ↦ rw e refl
      | inr e ↦
          rw e (set_value-Unused topics name id (get_by same_number id topics) v values unused refl)
    ]
set_row-Unused topics name (some (Value.nil, v)) values unused = refl
set_row-Unused topics name (some (Value.bool b, v)) values unused = refl
set_row-Unused topics name (some (Value.str s, v)) values unused = refl
set_row-Unused topics name (some (Value.bytes s, v)) values unused = refl
set_row-Unused topics name (some (Value.arr s, v)) values unused = refl
set_row-Unused topics name (some (Value.map s, v)) values unused = refl

handle_items-Unused :
    (topics : List (Number × Topic)) (name : Text) (items : Values) (values : ValuesByName)
    → Unused topics name
    → value_of (handle_items topics items values) name ≡ value_of values name
unfolding handle_items
handle_items-Unused topics name end values unused = refl
handle_items-Unused topics name (item v vs) values unused =
    handle_items-Unused topics name vs (handle_item topics v values) unused
    ∙ set_row-Unused topics name (row v) values unused

handle_binary-Unused :
    (items : Decoded Values) (name : Text) (e : Entry)
    → Unused e.topics_by_id name
    → value_of (handle_binary items e).values_by_name name ≡ value_of e.values_by_name name
unfolding handle_binary
handle_binary-Unused (ok items) name e unused =
    handle_items-Unused e.topics_by_id name items e.values_by_name unused
handle_binary-Unused malformed name e unused = refl
handle_binary-Unused array_too_large name e unused = refl
handle_binary-Unused map_too_large name e unused = refl
handle_binary-Unused unsupported name e unused = refl
handle_binary-Unused stuck name e unused = refl

-- A topic that is no longer in the table by name is not reached by an id.
Agree-Unused :
    (e : Entry) (name : Text)
    → Agree e
    → get_by same name e.topics_by_name ≡ none
    → Unused e.topics_by_id name
unfolding Unused
Agree-Unused e name a gone id topic h = elim (Bool-cases (same topic.name name)) [
  | inl f ↦
      let clash =
        sym gone
        ∙ ap (λ x. get_by same x e.topics_by_name) (sym (same→eq topic.name name f))
        ∙ (a.by_id id topic h).1 in
      cc
  | inr f ↦ f
]

unannounce-gone :
    (name : Text) (e : Entry)
    → (get_by same name (unannounce name e).topics_by_name ≡ none)
      × (value_of (unannounce name e).values_by_name name ≡ none)
unfolding unannounce
unannounce-gone name e = (
  get_by-delete_by same same→eq name name e.topics_by_name ∙ rw (same_refl name) refl,
  get_by-delete_by same same→eq name name e.values_by_name ∙ rw (same_refl name) refl,
)

-- While the tables agree, a topic that has been unannounced has no value, and no binary frame that
-- comes after gives it one.
pub unannounced-value :
    (parse_json : Text → Option Json) (t : TextCodec) (now : ℕ) (frame : List ℕ) (name : Text)
    (e : Entry)
    → Agree e
    → value_of
        (handle_message parse_json t now (binary_frame frame) (unannounce name e)).0.values_by_name
        name
      ≡ none
unfolding handle_message begin_message
unannounced-value parse_json t now frame name e a =
    handle_binary-Unused (decode_msg_pack t frame) name (begin_message now (unannounce name e))
      (Agree-Unused (unannounce name e) name (unannounce-Agree name e a) (unannounce-gone name e).0)
    ∙ (unannounce-gone name e).1

-- A frame that the encoder writes for a topic's id, two more values and a value, as a server sends
-- it, sets the value of that topic and no other, provided that the encoder can write the four.
pub handle_message-row :
    (parse_json : Text → Option Json) (t : TextCodec) (now id : ℕ) (stamp type value : Value)
    (topic : Topic) (name : Text) (e : Entry)
    → IsEncodable t (arr (item (num (whole id)) (item stamp (item type (item value end)))))
    → get_by same_number (whole id) e.topics_by_id ≡ some topic
    → value_of
        (handle_message parse_json t now
          (binary_frame (
            encode_msg_pack t
              (arr (item (num (whole id)) (item stamp (item type (item value end)))))))
          e).0.values_by_name
        name
      ≡ (if same topic.name name then some value else value_of e.values_by_name name)
unfolding handle_message handle_binary begin_message handle_items handle_item
handle_message-row parse_json t now id stamp type value topic name e can there =
    ap (λ x. value_of (handle_binary x (begin_message now e)).values_by_name name)
      (decode_msg_pack-encode_msg_pack t
        (arr (item (num (whole id)) (item stamp (item type (item value end))))) can)
    ∙ ap (λ x. value_of (set_value x value e.values_by_name) name) there
    ∙ get_by-put_by same same→eq topic.name name value e.values_by_name
