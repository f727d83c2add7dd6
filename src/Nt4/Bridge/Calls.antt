-- ===== src/Nt4/Bridge/Calls.antt =====
-- `select` and what the sockets' events do, in apps/control/src/nt4-auto.ts.
use code_runner.Prelude.{
  ℕ, ◌*◌, List, [], ◌∷◌, ◌++◌, Option, none, some, Bool, true, false, not, if◌then◌else◌, ◌==◌,
  is_some, get, or_else, map,
}
use code_runner.Prelude.Texts.{Text, codes, same}
use code_runner.Prelude.Keyed.{get_by, put_by, has_by}
use code_runner.HalSim.{connected, disconnected, ReadyState, open_, closed}
use code_runner.Nt4.Number.{whole, nearest}
use code_runner.Nt4.MsgPack.{Value, num, str, nil, arr, end, item, encode_msg_pack}
use code_runner.Nt4.Topics.{AutoChooser, normalize_topic_name, publish_topic_name}
use code_runner.Nt4.Entry.{Topic, Entry, Raw, handle_message}
use code_runner.Nt4.Bridge.{
  Frame, publish, subscribe, binary, Bridge, Platform, Target, upstream_url_for, store, set_ready,
  ensure_connected, Snapshot, snapshot_from_entry, usable, send, send_json,
}

-- What follows a frame that did not throw.
abbrev pub if_sent : Bridge × Bool → (Bridge → Bridge × Bool) → Bridge × Bool
if_sent (b, false) rest = (b, false)
if_sent (b, true) rest = rest b

-- The loop of `onSocketOpen`
unfoldable pub send_frames : Entry → List Frame → Bridge → Bridge × Bool
unfolding send_json
send_frames e [] b = (b, true)
send_frames e (f ∷ fs) b = if_sent (send_json e f b) (send_frames e fs)

unfoldable pub published : Entry → Entry
published e = record e { connection = connected; connected = true; stale = false; error = none }

unfoldable pub on_socket_open : ℕ → Entry → Bridge → Bridge
unfolding published send_frames
on_socket_open workspace_id e b =
    let next = published e in
    (send_frames next (map (λ x. publish (x.1)) next.published_topics ++ (subscribe ∷ []))
      (store workspace_id next b)).0

abbrev reason_error : Text → Option Text
reason_error [] = none
reason_error (c ∷ s) = some (c ∷ s)

-- What the close listener sets; `onSocketClosed` only logs.
unfoldable pub closed_entry : Text → Entry → Entry
closed_entry reason e = record e {
  socket = none;
  connection = disconnected;
  connected = false;
  stale = true;
  error = reason_error reason;
}

unfoldable pub on_socket_error : Entry → Entry
on_socket_error e = record e { error = some (codes "NT4 upstream error.") }

pub data Event : Type 0 where
  opens : Event
  message : ℕ → Raw → Event
  closes_with : Text → Event
  errs : Event

-- A listener's body, past its guard. The platform changes the socket's state before it calls.
unfoldable pub react : Platform → ℕ → ℕ → Entry → Event → Bridge → Bridge
unfolding on_socket_open closed_entry on_socket_error
react p workspace_id s e opens b = on_socket_open workspace_id e b
react p workspace_id s e (message now raw) b =
    store workspace_id ((handle_message p.parse_json p.codec now raw e).0) b
react p workspace_id s e (closes_with reason) b = store workspace_id (closed_entry reason e) b
react p workspace_id s e errs b = store workspace_id (on_socket_error e) b

abbrev pub is_current : Option ℕ → ℕ → Bool
is_current none s = false
is_current (some t) s = t == s

abbrev pub state_after : Event → ReadyState → ReadyState
state_after opens r = open_
state_after (closes_with reason) r = closed
state_after _ r = r

-- An event of the socket `s`, whose listeners are bound to the workspace's entry.
unfoldable pub listen : Platform → ℕ → ℕ → Event → Bridge → Bridge
unfolding react
listen p workspace_id s event b =
    let c : Bridge = record b {
      sockets = set_ready s (state_after event (b.sockets s)) b.sockets;
    } in
    elim (get workspace_id c.entries) [
      | none ↦ c
      | some e ↦ if is_current e.socket s then react p workspace_id s e event c else c
    ]

pub record AutoChooserPatch : Type 0 where
  pub key : Text
  pub selected : Text

-- `endless` is the loop of `readOptions` that never ends.
pub data Reply : Type 0 where
  ok : Snapshot → Reply
  unavailable : Text → Reply
  unknown_chooser unknown_routine : Text → Reply
  endless : Reply

-- `choosers.find`
abbrev pub find_chooser : Text → List AutoChooser → Option AutoChooser
find_chooser key [] = none
find_chooser key (c ∷ cs) = if same c.key key then some c else find_chooser key cs

abbrev pub selected_topic : Text → Text
selected_topic key = publish_topic_name key ++ codes "/selected"

abbrev pub string_topic : ℕ → Text → Topic
string_topic id name = record { id = whole id; name = name; type = codes "string" }

-- `publishStringTopic`, where `id` is drawn at random.
unfoldable pub publish_string_topic : ℕ → Text → Entry → Bridge → Bridge × Entry × Bool
unfolding send_json
publish_string_topic id name e b =
    let topic = string_topic id name in
    let next : Entry = record e { published_topics = put_by same name topic e.published_topics } in
    let (c, sent) = send_json next (publish topic) b in
    if is_some (get_by same name e.published_topics) then (b, e, true) else (c, next, sent)

abbrev id_value : Option Topic → Value
id_value none = nil
id_value (some topic) = num topic.id

-- `[id, Date.now() * 1000, STRING_TYPE_INDEX, selected]`
unfoldable pub selection : ℕ → Option Topic → Text → Value
selection now topic selected = arr (
    item (id_value topic)
      (item (num (whole (nearest (now * 1000)))) (item (num (whole 4)) (item (str selected) end))))

unfoldable pub set_selected : ℕ → AutoChooserPatch → Entry → Entry
set_selected now patch e = record e {
  values_by_name =
      put_by same (normalize_topic_name (selected_topic patch.key)) (str patch.selected)
        e.values_by_name;
  last_message_at = some now;
  stale = false;
}

abbrev pub reply_of : Option Snapshot → Reply
reply_of none = endless
reply_of (some snapshot) = ok snapshot

abbrev pub not_connected : Text
not_connected = codes "NT4 auto chooser bridge is not connected."

-- What `select` does once the topic is published; the flag says whether that went through.
unfoldable pub send_selection :
    Platform → ℕ → ℕ → AutoChooserPatch → Bridge × Entry × Bool → Bridge × Reply
unfolding selection set_selected
send_selection p workspace_id now patch (c, e, false) =
    (store workspace_id e c, unavailable not_connected)
send_selection p workspace_id now patch (c, e, true) =
    let topic = get_by same (selected_topic patch.key) e.published_topics in
    let frame = encode_msg_pack p.codec (selection now topic patch.selected) in
    (
      store workspace_id (set_selected now patch e) (send e.socket (binary frame) c),
      reply_of (snapshot_from_entry p (set_selected now patch e)),
    )

-- `select`, past its guards.
unfoldable pub choose : Platform → ℕ → ℕ → ℕ → AutoChooserPatch → Entry → Bridge → Bridge × Reply
unfolding publish_string_topic send_selection
choose p workspace_id now id patch e b =
    send_selection p workspace_id now patch (publish_string_topic id (selected_topic patch.key) e b)

-- The guards of `select`, on the entry and the snapshot that `ensureConnected` leaves.
unfoldable pub select_from :
    Platform → ℕ → ℕ → ℕ → AutoChooserPatch → Entry → Bridge → Snapshot → Bridge × Reply
unfolding choose
select_from p workspace_id now id patch e b snapshot =
    if not (usable e.socket b)
    then (b, unavailable (or_else snapshot.nt4.error not_connected))
    else elim (find_chooser patch.key snapshot.choosers) [
      | none ↦ (b, unknown_chooser patch.key)
      | some chooser ↦
          if has_by same patch.selected chooser.options
          then choose p workspace_id now id patch e b
          else (b, unknown_routine patch.selected)
    ]

-- `select` from the snapshot on, if that ends.
unfoldable pub select_shown :
    Platform → ℕ → ℕ → ℕ → AutoChooserPatch → Entry → Bridge → Option Snapshot → Bridge × Reply
unfolding select_from
select_shown p workspace_id now id patch e b none = (b, endless)
select_shown p workspace_id now id patch e b (some snapshot) =
    select_from p workspace_id now id patch e b snapshot

unfoldable pub select : Platform → ℕ → Target → ℕ → ℕ → AutoChooserPatch → Bridge → Bridge × Reply
unfolding ensure_connected select_shown
select p workspace_id target now id patch b =
    let (c, e) = ensure_connected workspace_id (upstream_url_for target) b in
    select_shown p workspace_id now id patch e c (snapshot_from_entry p e)
