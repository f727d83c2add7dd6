-- ===== src/Nt4/Bridge/Reach.antt =====
-- The calls and the events of the bridge in apps/control/src/nt4-auto.ts, in any order.
use code_runner.Prelude.{
  ℕ, List, [], ◌∷◌, Option, none, some, Bool, true, false, ◌≡◌, refl, inl, inr, Bool-cases,
  Option-cases, if◌then◌else◌, is_some, get,
}
use code_runner.Prelude.Texts.{Text, same}
use code_runner.Prelude.Keyed.{get_by, put_by, has_by}
use code_runner.HalSim.{closed}
use code_runner.Nt4.Entry.{Entry, create_entry, handle_message}
use code_runner.Nt4.Bridge.{
  Frame, publish, Bridge, Platform, Target, upstream_url_for, store, close_socket, detached,
  disconnect, disconnect_all, close, ensure_entry, opened, open_socket, ensure_connected, Snapshot,
  snapshot_from_entry, usable, send, send_json,
}
use code_runner.Nt4.Bridge.Calls.{
  Event, opens, message, closes_with, errs, if_sent, string_topic, published, closed_entry,
  on_socket_error, on_socket_open, send_frames, react, is_current, listen, AutoChooserPatch,
  publish_string_topic, send_selection, set_selected, choose, select_from, select_shown, select,
  find_chooser, selected_topic,
}
use code_runner.Nt4.Bridge.Coherent.{
  IsCoherent, AllCoherent, put-AllCoherent, with_link, handle_message-link, link_of,
}

-- A call of the routes, or an event of a socket that was made for a workspace.
pub data Call : Type 0 where
  ensure : ℕ → Target → Call
  choose_one : ℕ → Target → ℕ → ℕ → AutoChooserPatch → Call
  detach : ℕ → Call
  detach_all : Call
  event : ℕ → ℕ → Event → Call

unfoldable pub run : Platform → Call → Bridge → Bridge
unfolding ensure_connected select disconnect close listen
run p (ensure w target) b = (ensure_connected w (upstream_url_for target) b).0
run p (choose_one w target now id patch) b = (select p w target now id patch b).0
run p (detach w) b = disconnect w b
run p detach_all b = close b
run p (event w s e) b = listen p w s e b

unfoldable pub run_all : Platform → List Call → Bridge → Bridge
unfolding run
run_all p [] b = b
run_all p (call ∷ calls) b = run_all p calls (run p call b)

abbrev pub new_bridge : Bridge
new_bridge = record { entries = []; sockets = λ s. closed; next_socket = 0; sent = [] }

-- Every entry is.
pub Coherent : Bridge → Type 0
Coherent b = AllCoherent b.entries

close_socket-Coherent : (o : Option ℕ) (b : Bridge) → Coherent b → Coherent (close_socket o b)
unfolding Coherent
close_socket-Coherent none b all = all
close_socket-Coherent (some s) b all = all

send-Coherent : (o : Option ℕ) (f : Frame) (b : Bridge) → Coherent b → Coherent (send o f b)
unfolding Coherent
send-Coherent none f b all = all
send-Coherent (some s) f b all = all

store-Coherent :
    (w : ℕ) (e : Entry) (b : Bridge) → IsCoherent e → Coherent b → Coherent (store w e b)
unfolding Coherent
store-Coherent w e b c all = put-AllCoherent w e b.entries c all

send_json-Coherent :
    (e : Entry) (f : Frame) (b : Bridge) → Coherent b → Coherent (send_json e f b).0
unfolding send_json
send_json-Coherent e f b all = elim (Bool-cases (usable e.socket b)) [
  | inl h ↦ rw h (send-Coherent e.socket f b all)
  | inr h ↦ rw h all
]

disconnect-Coherent : (w : ℕ) (b : Bridge) → Coherent b → Coherent (disconnect w b)
unfolding disconnect detached
disconnect-Coherent w b all = elim (Option-cases (get w b.entries)) [
  | inl h ↦ rw (h, disconnect) all
  | inr (e, h) ↦
      rw (h, disconnect)
        (close_socket-Coherent e.socket (store w (detached e) b)
          (store-Coherent w (detached e) b (refl, λ no_flag. cc) all))
]

disconnect_all-Coherent :
    (entries : List (ℕ × Entry)) (b : Bridge) → Coherent b → Coherent (disconnect_all entries b)
unfolding disconnect_all
disconnect_all-Coherent [] b all = all
disconnect_all-Coherent ((w, e) ∷ rest) b all =
    disconnect_all-Coherent rest (disconnect w b) (disconnect-Coherent w b all)

-- The bridge, and the entry that is handed on.
Both : Bridge × Entry → Type 0
Both (b, e) = Coherent b × IsCoherent e

create_entry-IsCoherent : (url : Text) → IsCoherent (create_entry url)
unfolding create_entry
create_entry-IsCoherent url = (refl, λ no_flag. cc)

both : (b : Bridge) (e : Entry) → Coherent b → IsCoherent e → Both (b, e)
unfolding Both
both b e all c = (all, c)

stored : (w : ℕ) (e : Entry) (b : Bridge) → IsCoherent e → Coherent b → Both (store w e b, e)
stored w e b c all = both (store w e b) e (store-Coherent w e b c all) c

found : (w : ℕ) (e : Entry) (b : Bridge) → Coherent b → get w b.entries ≡ some e → IsCoherent e
unfolding Coherent
found w e b all h = all w e h

ensure_entry-Both : (w : ℕ) (url : Text) (b : Bridge) → Coherent b → Both (ensure_entry w url b)
unfolding ensure_entry
ensure_entry-Both w url b all = elim (Option-cases (get w b.entries)) [
  | inl h ↦ rw (h, ensure_entry) (stored w (create_entry url) b (create_entry-IsCoherent url) all)
  | inr (e, h) ↦ elim (Bool-cases (same e.upstream_url url)) [
    | inl f ↦ rw (h, f, ensure_entry) (both b e all (found w e b all h))
    | inr f ↦
        rw (h, f, ensure_entry)
          (stored w (create_entry url) (disconnect w b) (create_entry-IsCoherent url)
            (disconnect-Coherent w b all))
  ]
]

open_socket-Both : (w : ℕ) (e : Entry) (b : Bridge) → Coherent b → Both (open_socket w e b)
unfolding open_socket opened Both Coherent
open_socket-Both w e b all = (
  put-AllCoherent w (opened b.next_socket e) b.entries (refl, λ no_flag. cc) all,
  (refl, λ no_flag. cc),
)

attached :
    (w : ℕ) (b : Bridge) (e : Entry)
    → Both (b, e)
    → Both (if is_some e.socket then (b, e) else open_socket w e b)
unfolding Both
attached w b e h = elim (Bool-cases (is_some e.socket)) [
  | inl f ↦ rw f h
  | inr f ↦ rw f (open_socket-Both w e b h.0)
]

fst : (out : Bridge × Entry) → Both out → Coherent out.0
unfolding Both
fst (b, e) h = h.0

ensure_connected-Both :
    (w : ℕ) (url : Text) (b : Bridge) → Coherent b → Both (ensure_connected w url b)
unfolding ensure_connected
ensure_connected-Both w url b all =
    let (c, e) = ensure_entry w url b in attached w c e (ensure_entry-Both w url b all)

set_selected-link :
    (now : ℕ) (patch : AutoChooserPatch) (e : Entry)
    → link_of (set_selected now patch e) ≡ link_of e
unfolding set_selected
set_selected-link now patch e = refl

-- The same with a flag or a reply behind.
Three {ℓ} : {A : Type ℓ} → Bridge × Entry × A → Type 0
Three (b, e, a) = Coherent b × IsCoherent e

publish_string_topic-Three :
    (id : ℕ) (name : Text) (e : Entry) (b : Bridge)
    → Coherent b
    → IsCoherent e
    → Three (publish_string_topic id name e b)
unfolding publish_string_topic Three
publish_string_topic-Three id name e b all c =
    elim (Bool-cases (is_some (get_by same name e.published_topics))) [
      | inl h ↦ rw h (all, c)
      | inr h ↦ rw h (
        send_json-Coherent
            (record e {
              published_topics = put_by same name (string_topic id name) e.published_topics;
            })
            (publish (string_topic id name)) b all,
        c,
      )
    ]

send_selection-Coherent :
    (p : Platform) (w now : ℕ) (patch : AutoChooserPatch) (out : Bridge × Entry × Bool)
    → Three out
    → Coherent (send_selection p w now patch out).0
unfolding send_selection Three
send_selection-Coherent p w now patch (b, e, false) h = store-Coherent w e b h.1 h.0
send_selection-Coherent p w now patch (b, e, true) h =
    store-Coherent w (set_selected now patch e) _
      (with_link e (set_selected now patch e) (set_selected-link now patch e) h.1)
      (send-Coherent e.socket _ b h.0)

choose-Coherent :
    (p : Platform) (w now id : ℕ) (patch : AutoChooserPatch) (e : Entry) (b : Bridge)
    → Coherent b
    → IsCoherent e
    → Coherent (choose p w now id patch e b).0
unfolding choose
choose-Coherent p w now id patch e b all c =
    send_selection-Coherent p w now patch (publish_string_topic id (selected_topic patch.key) e b)
      (publish_string_topic-Three id (selected_topic patch.key) e b all c)

select_from-Coherent :
    (p : Platform) (w now id : ℕ) (patch : AutoChooserPatch) (e : Entry) (b : Bridge)
    (snapshot : Snapshot)
    → Coherent b
    → IsCoherent e
    → Coherent (select_from p w now id patch e b snapshot).0
unfolding select_from
select_from-Coherent p w now id patch e b snapshot all c = elim (Bool-cases (usable e.socket b)) [
  | inl h ↦ elim (Option-cases (find_chooser patch.key snapshot.choosers)) [
    | inl f ↦ rw (h, f, select_from) all
    | inr (chooser, f) ↦ elim (Bool-cases (has_by same patch.selected chooser.options)) [
      | inl g ↦ rw (h, f, g, select_from) (choose-Coherent p w now id patch e b all c)
      | inr g ↦ rw (h, f, g, select_from) all
    ]
  ]
  | inr h ↦ rw (h, select_from) all
]

select_shown-Coherent :
    (p : Platform) (w now id : ℕ) (patch : AutoChooserPatch) (b : Bridge) (e : Entry)
    (o : Option Snapshot)
    → Both (b, e)
    → Coherent (select_shown p w now id patch e b o).0
unfolding select_shown Both
select_shown-Coherent p w now id patch b e none h = h.0
select_shown-Coherent p w now id patch b e (some snapshot) h =
    select_from-Coherent p w now id patch e b snapshot h.0 h.1

select-Coherent :
    (p : Platform) (w : ℕ) (target : Target) (now id : ℕ) (patch : AutoChooserPatch) (b : Bridge)
    → Coherent b
    → Coherent (select p w target now id patch b).0
unfolding select
select-Coherent p w target now id patch b all =
    let (c, e) = ensure_connected w (upstream_url_for target) b in
    select_shown-Coherent p w now id patch c e (snapshot_from_entry p e)
      (ensure_connected-Both w (upstream_url_for target) b all)

if_sent-Coherent :
    (out : Bridge × Bool) (rest : Bridge → Bridge × Bool)
    → ((b : Bridge) → Coherent b → Coherent (rest b).0)
    → Coherent out.0
    → Coherent (if_sent out rest).0
if_sent-Coherent (b, false) rest later all = all
if_sent-Coherent (b, true) rest later all = later b all

send_frames-Coherent :
    (e : Entry) (fs : List Frame) (b : Bridge) → Coherent b → Coherent (send_frames e fs b).0
unfolding send_frames
send_frames-Coherent e [] b all = all
send_frames-Coherent e (f ∷ fs) b all =
    if_sent-Coherent (send_json e f b) (send_frames e fs) (send_frames-Coherent e fs)
      (send_json-Coherent e f b all)

is_current-is_some : (o : Option ℕ) (s : ℕ) → is_current o s ≡ true → is_some o ≡ true
is_current-is_some none s h = h
is_current-is_some (some t) s h = refl

react-Coherent :
    (p : Platform) (w s : ℕ) (e : Entry) (event : Event) (b : Bridge)
    → is_some e.socket ≡ true
    → IsCoherent e
    → Coherent b
    → Coherent (react p w s e event b)
unfolding react on_socket_open published closed_entry on_socket_error
react-Coherent p w s e opens b there c all =
    send_frames-Coherent (published e) _ (store w (published e) b)
      (store-Coherent w (published e) b (refl, λ flag. there) all)
react-Coherent p w s e (message now raw) b there c all =
    store-Coherent w (handle_message p.parse_json p.codec now raw e).0 b
      (with_link e ((handle_message p.parse_json p.codec now raw e).0)
        (handle_message-link p.parse_json p.codec now raw e) c)
      all
react-Coherent p w s e (closes_with reason) b there c all =
    store-Coherent w (closed_entry reason e) b (refl, λ no_flag. cc) all
react-Coherent p w s e errs b there c all = store-Coherent w (on_socket_error e) b c all

listen-Coherent :
    (p : Platform) (w s : ℕ) (ev : Event) (b : Bridge) → Coherent b → Coherent (listen p w s ev b)
unfolding listen Coherent
listen-Coherent p w s ev b all = elim (Option-cases (get w b.entries)) [
  | inl h ↦ rw (h, listen) all
  | inr (e, h) ↦ elim (Bool-cases (is_current e.socket s)) [
    | inl f ↦
        rw (h, f, listen)
          (react-Coherent p w s e ev _ (is_current-is_some e.socket s f) (all w e h) all)
    | inr f ↦ rw (h, f, listen) all
  ]
]

close-Coherent : (b : Bridge) → Coherent (close b)
unfolding close Coherent get
close-Coherent b w e h = cc

run-Coherent : (p : Platform) (call : Call) (b : Bridge) → Coherent b → Coherent (run p call b)
unfolding run
run-Coherent p (ensure w target) b all =
    fst _ (ensure_connected-Both w (upstream_url_for target) b all)
run-Coherent p (choose_one w target now id patch) b all =
    select-Coherent p w target now id patch b all
run-Coherent p (detach w) b all = disconnect-Coherent w b all
run-Coherent p detach_all b all = close-Coherent b
run-Coherent p (event w s e) b all = listen-Coherent p w s e b all

run_all-Coherent :
    (p : Platform) (calls : List Call) (b : Bridge) → Coherent b → Coherent (run_all p calls b)
unfolding run_all
run_all-Coherent p [] b all = all
run_all-Coherent p (call ∷ calls) b all =
    run_all-Coherent p calls (run p call b) (run-Coherent p call b all)

entries_of : (b : Bridge) → Coherent b → AllCoherent b.entries
unfolding Coherent
entries_of b all = all

nothing_yet : Coherent new_bridge
unfolding Coherent get
nothing_yet w e h = cc

-- After any calls and events from a new bridge on, every entry says that it is connected exactly if
-- its connection is, and an entry that says so has a socket.
pub run_all-AllCoherent :
    (p : Platform) (calls : List Call) → AllCoherent (run_all p calls new_bridge).entries
run_all-AllCoherent p calls =
    entries_of (run_all p calls new_bridge) (run_all-Coherent p calls new_bridge nothing_yet)
