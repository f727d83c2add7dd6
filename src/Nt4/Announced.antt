-- ===== src/Nt4/Announced.antt =====
-- The two tables of topics in apps/control/src/nt4-auto.ts, `topicsById` and `topicsByName`.
use mathlib.Core.Path.{subst}
use code_runner.Prelude.{ℕ, List, Option, none, some, Bool, true, ◌≡◌, refl, ap, ◌∙◌, arith}
use code_runner.Prelude.Texts.{Text, same, same_refl, same→eq}
use code_runner.Prelude.Keyed.{get_by, delete_by}
use code_runner.Nt4.Tables.{IsTest, Linked, put-Linked, delete-Linked, absent-Linked, shrink-Linked}
use code_runner.Json.{Json, Items, nil, cons}
use code_runner.Nt4.Number.{Number, whole, other, same_number}
use code_runner.Nt4.MsgPack.{
  TextCodec, Values, Decoded, ok, malformed, array_too_large, map_too_large, unsupported, stuck,
  decode_msg_pack,
}
use code_runner.Nt4.Entry.{
  Raw, text_frame, binary_frame, begin_message, handle_message, handle_json, handle_binary, Topic,
  Entry, Command, announces, unannounces, ignored, announce, unannounce, forget, command_of, apply,
  run_command, handle_texts,
}

pub same_number→eq : (a b : Number) → same_number a b ≡ true → a ≡ b
same_number→eq (whole m) (whole n) h = ap whole (ground arith)
same_number→eq (other m) (other n) h = ap other (ground arith)
same_number→eq (whole m) (other n) h = cc
same_number→eq (other m) (whole n) h = cc

same_number_refl : (a : Number) → same_number a a ≡ true
same_number_refl (whole m) = ground arith
same_number_refl (other m) = ground arith

same_number-IsTest : IsTest same_number
same_number-IsTest = record { is_refl = same_number_refl; is_sound = same_number→eq }

same-IsTest : IsTest same
same-IsTest = record { is_refl = same_refl; is_sound = same→eq }

abbrev id_of : Topic → Number
id_of topic = topic.id

abbrev name_of : Topic → Text
name_of topic = topic.name

-- Each table has its topics under the keys they carry, and has those that the other one has.
pub record Agree (e : Entry) : Type 0 where
  pub by_id : Linked same_number same id_of name_of e.topics_by_id e.topics_by_name
  pub by_name : Linked same same_number name_of id_of e.topics_by_name e.topics_by_id

-- A server announces a topic under an id and a name that are not in use.
abbrev pub Fresh : Command → Entry → Type 0
Fresh (announces topic) e =
    (get_by same_number topic.id e.topics_by_id ≡ none)
    × (get_by same topic.name e.topics_by_name ≡ none)
Fresh (unannounces name) e = Unit
Fresh ignored e = Unit

-- The same for each message of a frame, up to one that throws.
abbrev FreshNext : Option Command → Entry → (Entry → Type 0) → Type 0
FreshNext none e rest = Unit
FreshNext (some command) e rest = Fresh command e × rest (apply command e)

abbrev pub FreshAll : Items → Entry → Type 0
FreshAll nil e = Unit
FreshAll (cons message rest) e = FreshNext (command_of message) e (FreshAll rest)

announce-Agree :
    (topic : Topic) (e : Entry) → Fresh (announces topic) e → Agree e → Agree (announce topic e)
unfolding announce
announce-Agree topic e fresh a = record {
  by_id =
      put-Linked same_number same id_of name_of same_number-IsTest same-IsTest topic e.topics_by_id
        e.topics_by_name fresh.1 a.by_id;
  by_name =
      put-Linked same same_number name_of id_of same-IsTest same_number-IsTest topic
        e.topics_by_name e.topics_by_id fresh.0 a.by_name;
}

module _ (by_id : List (Number × Topic)) (by_name : List (Text × Topic))
    (left : Linked same_number same id_of name_of by_id by_name)
    (right : Linked same same_number name_of id_of by_name by_id) where
  forget-Linked :
      (name : Text) (o : Option Topic)
      → get_by same name by_name ≡ o
      → Linked same_number same id_of name_of (forget o by_id) (delete_by same name by_name)
        × Linked same same_number name_of id_of (delete_by same name by_name) (forget o by_id)
  forget-Linked name none h = (
    absent-Linked same_number same id_of name_of same_number-IsTest same-IsTest name by_id by_name h
        left,
    shrink-Linked same same_number name_of id_of same-IsTest same_number-IsTest name by_name by_id
        right,
  )
  forget-Linked name (some topic) h =
      let (e, there) = right name topic h in
      let at_name : get_by same topic.name by_name ≡ some topic =
        ap (λ x. get_by same x by_name) e ∙ h in
      (
        subst
            (λ x.
              Linked same_number same id_of name_of (delete_by same_number topic.id by_id)
                (delete_by same x by_name))
            e
            (delete-Linked same_number same id_of name_of same_number-IsTest same-IsTest topic by_id
              by_name at_name left),
        subst
            (λ x.
              Linked same same_number name_of id_of (delete_by same x by_name)
                (delete_by same_number topic.id by_id))
            e
            (delete-Linked same same_number name_of id_of same-IsTest same_number-IsTest topic
              by_name by_id there right),
      )

pub unannounce-Agree : (name : Text) (e : Entry) → Agree e → Agree (unannounce name e)
unfolding unannounce
unannounce-Agree name e a =
    let both =
      forget-Linked e.topics_by_id e.topics_by_name a.by_id a.by_name name
        (get_by same name e.topics_by_name) refl in
    record { by_id = both.0; by_name = both.1 }

apply-Agree : (command : Command) (e : Entry) → Fresh command e → Agree e → Agree (apply command e)
unfolding apply
apply-Agree (announces topic) e fresh a = announce-Agree topic e fresh a
apply-Agree (unannounces name) e fresh a = unannounce-Agree name e a
apply-Agree ignored e fresh a = a

run_command-Agree :
    (o : Option Command) (rest : Entry → Entry × Bool) (fresh_rest : Entry → Type 0) (e : Entry)
    → ((next : Entry) → fresh_rest next → Agree next → Agree (rest next).0)
    → FreshNext o e fresh_rest
    → Agree e
    → Agree (run_command o rest e).0
run_command-Agree none rest fresh_rest e later fresh a = a
run_command-Agree (some command) rest fresh_rest e later fresh a =
    later (apply command e) fresh.1 (apply-Agree command e fresh.0 a)

handle_texts-Agree :
    (messages : Items) (e : Entry)
    → FreshAll messages e
    → Agree e
    → Agree (handle_texts messages e).0
unfolding handle_texts
handle_texts-Agree nil e fresh a = a
handle_texts-Agree (cons message rest) e fresh a =
    run_command-Agree (command_of message) (handle_texts rest) (FreshAll rest) e
      (handle_texts-Agree rest) fresh a

-- What a text frame holds is fresh; a frame that is no array changes no table.
abbrev FreshFrame : Option Json → Entry → Type 0
FreshFrame (some (Json.arr messages)) e = FreshAll messages e
FreshFrame _ e = Unit

abbrev pub FreshRaw : (Text → Option Json) → ℕ → Raw → Entry → Type 0
FreshRaw parse_json now (text_frame s) e = FreshFrame (parse_json s) (begin_message now e)
FreshRaw parse_json now (binary_frame frame) e = Unit

handle_json-Agree :
    (json : Option Json) (e : Entry) → FreshFrame json e → Agree e → Agree (handle_json json e).0
unfolding handle_json
handle_json-Agree none e fresh a = a
handle_json-Agree (some (Json.arr messages)) e fresh a = handle_texts-Agree messages e fresh a
handle_json-Agree (some Json.null) e fresh a = a
handle_json-Agree (some (Json.bool b)) e fresh a = a
handle_json-Agree (some (Json.num n)) e fresh a = a
handle_json-Agree (some (Json.str s)) e fresh a = a
handle_json-Agree (some (Json.obj fs)) e fresh a = a

handle_binary-Agree : (items : Decoded Values) (e : Entry) → Agree e → Agree (handle_binary items e)
unfolding handle_binary
handle_binary-Agree (ok items) e a = record { by_id = a.by_id; by_name = a.by_name }
handle_binary-Agree malformed e a = record { by_id = a.by_id; by_name = a.by_name }
handle_binary-Agree array_too_large e a = record { by_id = a.by_id; by_name = a.by_name }
handle_binary-Agree map_too_large e a = record { by_id = a.by_id; by_name = a.by_name }
handle_binary-Agree unsupported e a = record { by_id = a.by_id; by_name = a.by_name }
handle_binary-Agree stuck e a = a

begin_message-Agree : (now : ℕ) (e : Entry) → Agree e → Agree (begin_message now e)
unfolding begin_message
begin_message-Agree now e a = record { by_id = a.by_id; by_name = a.by_name }

-- Every frame keeps the two tables of topics in agreement, provided that each topic it announces has
-- an id and a normalized name that are not in use at that point.
pub handle_message-Agree :
    (parse_json : Text → Option Json) (t : TextCodec) (now : ℕ) (raw : Raw) (e : Entry)
    → FreshRaw parse_json now raw e
    → Agree e
    → Agree (handle_message parse_json t now raw e).0
unfolding handle_message
handle_message-Agree parse_json t now (text_frame s) e fresh a =
    handle_json-Agree (parse_json s) (begin_message now e) fresh (begin_message-Agree now e a)
handle_message-Agree parse_json t now (binary_frame frame) e fresh a =
    handle_binary-Agree (decode_msg_pack t frame) (begin_message now e)
      (begin_message-Agree now e a)
