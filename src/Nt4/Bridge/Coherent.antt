-- ===== src/Nt4/Bridge/Coherent.antt =====
-- What holds of every entry of the bridge in apps/control/src/nt4-auto.ts, whatever was called and
-- whichever events came.
use mathlib.Core.Path.{subst}
use code_runner.Prelude.{
  ℕ, List, Option, none, some, Bool, true, false, ◌≡◌, refl, sym, ap, ◌∙◌, inl, inr, Bool-cases,
  if◌then◌else◌, ◌==◌, is_some, get, put, get-put, or_else,
}
use code_runner.Prelude.Texts.{Text}
use code_runner.Json.{Json, Items, nil, cons}
use code_runner.HalSim.{BridgeConnection, connected}
use code_runner.Nt4.MsgPack.{
  TextCodec, Values, Decoded, ok, malformed, array_too_large, map_too_large, unsupported, stuck,
  decode_msg_pack,
}
use code_runner.Nt4.Entry.{
  Entry, Raw, text_frame, binary_frame, Command, announces, unannounces, ignored, command_of, apply,
  run_command, handle_texts, handle_json, handle_binary, begin_message, handle_message,
}

-- The three fields of a connection.
abbrev pub Link : Type 0
Link = BridgeConnection × Bool × Option ℕ

abbrev pub link_of : Entry → Link
link_of e = (e.connection, e.connected, e.socket)

abbrev pub is_connected : BridgeConnection → Bool
is_connected connected = true
is_connected _ = false

abbrev pub CoherentLink : Link → Type 0
CoherentLink (connection, flag, socket) =
    (flag ≡ is_connected connection) × (flag ≡ true → is_some socket ≡ true)

-- `connected` says that `connection` is "connected", and then there is a socket.
abbrev pub IsCoherent : Entry → Type 0
IsCoherent e = CoherentLink (link_of e)

abbrev pub AllCoherent : List (ℕ × Entry) → Type 0
AllCoherent entries = (w : ℕ) (e : Entry) → get w entries ≡ some e → IsCoherent e

apply-link : (command : Command) (e : Entry) → link_of (apply command e) ≡ link_of e
unfolding apply
apply-link (announces topic) e = refl
apply-link (unannounces name) e = refl
apply-link ignored e = refl

run_command-link :
    (o : Option Command) (rest : Entry → Entry × Bool) (e : Entry)
    → ((next : Entry) → link_of (rest next).0 ≡ link_of next)
    → link_of (run_command o rest e).0 ≡ link_of e
run_command-link none rest e later = refl
run_command-link (some command) rest e later = later (apply command e) ∙ apply-link command e

handle_texts-link : (messages : Items) (e : Entry) → link_of (handle_texts messages e).0 ≡ link_of e
unfolding handle_texts
handle_texts-link nil e = refl
handle_texts-link (cons m rest) e =
    run_command-link (command_of m) (handle_texts rest) e (handle_texts-link rest)

handle_json-link : (json : Option Json) (e : Entry) → link_of (handle_json json e).0 ≡ link_of e
unfolding handle_json
handle_json-link none e = refl
handle_json-link (some (Json.arr messages)) e = handle_texts-link messages e
handle_json-link (some Json.null) e = refl
handle_json-link (some (Json.bool b)) e = refl
handle_json-link (some (Json.num n)) e = refl
handle_json-link (some (Json.str s)) e = refl
handle_json-link (some (Json.obj fs)) e = refl

handle_binary-link :
    (items : Decoded Values) (e : Entry) → link_of (handle_binary items e) ≡ link_of e
unfolding handle_binary
handle_binary-link (ok items) e = refl
handle_binary-link malformed e = refl
handle_binary-link array_too_large e = refl
handle_binary-link map_too_large e = refl
handle_binary-link unsupported e = refl
handle_binary-link stuck e = refl

pub handle_message-link :
    (parse_json : Text → Option Json) (t : TextCodec) (now : ℕ) (raw : Raw) (e : Entry)
    → link_of (handle_message parse_json t now raw e).0 ≡ link_of e
unfolding handle_message begin_message
handle_message-link parse_json t now (text_frame s) e =
    handle_json-link (parse_json s) (begin_message now e)
handle_message-link parse_json t now (binary_frame frame) e =
    handle_binary-link (decode_msg_pack t frame) (begin_message now e)

pub with_link : (e f : Entry) → link_of f ≡ link_of e → IsCoherent e → IsCoherent f
with_link e f h c = subst CoherentLink (sym h) c

if-true : {t : Bool} {x : Option Entry} (y : Option Entry) → t ≡ true → (if t then x else y) ≡ x
if-true {t} {x} y e = rw e refl

if-false : {t : Bool} {y : Option Entry} (x : Option Entry) → t ≡ false → (if t then x else y) ≡ y
if-false {t} {y} x e = rw e refl

pub put-AllCoherent :
    (w : ℕ) (e : Entry) (entries : List (ℕ × Entry))
    → IsCoherent e
    → AllCoherent entries
    → AllCoherent (put w e entries)
put-AllCoherent w e entries c all v f h =
    let look = sym (get-put w v e entries) ∙ h in
    elim (Bool-cases (w == v)) [
      | inl t ↦ subst IsCoherent (ap (λ o. or_else o e) (sym (if-true _ t) ∙ look)) c
      | inr t ↦ all v f (sym (if-false _ t) ∙ look)
    ]
