-- ===== src/Nt4/Bridge/Select.antt =====
-- What `select` of apps/control/src/nt4-auto.ts leaves behind, for each of its replies.
use mathlib.Core.Path.{subst}
use code_runner.Prelude.{
  ℕ, ◌*◌, List, [], ◌∷◌, ◌++◌, Option, none, some, Bool, true, false, ◌≡◌, refl, sym, ap, ◌≢◌, ◌∙◌,
  inl, inr, Bool-cases, Option-cases, if◌then◌else◌, ◌==◌, get, get-put, arith,
}
use code_runner.Prelude.Texts.{Text, codes, same, same_refl, same→eq}
use code_runner.Prelude.Keyed.{get_by, put_by, has_by, get_by-put_by}
use code_runner.Nt4.Number.{Number, whole, nearest}
use code_runner.Nt4.MsgPack.{Value, num, str, arr, item, end, encode_msg_pack}
use code_runner.Nt4.Names.{normalize-published}
use code_runner.Nt4.Topics.{read_string, under, value_of, normalize_topic_name}
use code_runner.Nt4.Entry.{Topic, Entry}
use code_runner.Nt4.Bridge.{
  Frame, publish, binary, Bridge, Platform, Target, upstream_url_for, store, ensure_connected,
  Snapshot, snapshot_from_entry, usable, send, send_json,
}
use code_runner.Nt4.Bridge.Calls.{
  AutoChooserPatch, Reply, ok, unavailable, unknown_chooser, unknown_routine, endless,
  send_selection, selected_topic, find_chooser, publish_string_topic, selection, set_selected,
  reply_of, choose, select_from, select_shown, select,
}

-- The row that a server takes for a routine: the topic's id, the time in microseconds, the type of
-- a text, and the routine.
abbrev pub routine_row : Number → ℕ → Text → Value
routine_row id now routine = arr (
    item (num id)
      (item (num (whole (nearest (now * 1000)))) (item (num (whole 4)) (item (str routine) end))))

-- Selecting has put the routine at its name and nowhere else, and a frame with it was the last
-- thing sent, on the entry's socket.
pub record Written (w now : ℕ) (p : Platform) (patch : AutoChooserPatch) (e : Entry) (c : Bridge)
    (snapshot : Snapshot) : Type 0 where
  last : Entry
  stored : get w c.entries ≡ some last
  shown : snapshot_from_entry p last ≡ some snapshot
  there :
      (name : Text)
      → value_of last.values_by_name name ≡ (
          if same (normalize_topic_name (selected_topic patch.key)) name
          then some (str patch.selected)
          else value_of e.values_by_name name)
  topic : Topic
  advertised : get_by same (selected_topic patch.key) last.published_topics ≡ some topic
  socket : ℕ
  current : e.socket ≡ some socket
  front : List (ℕ × Frame)
  sends :
      c.sent
      ≡ front
        ++ ((socket, binary (encode_msg_pack p.codec (routine_row topic.id now patch.selected)))
            ∷ [])

-- The entry `e` and the bridge `b` are those before.
abbrev pub Answer : ℕ → ℕ → Platform → AutoChooserPatch → Entry → Bridge → Bridge × Reply → Type 0
Answer w now p patch e b (c, ok snapshot) = Written w now p patch e c snapshot
Answer w now p patch e b (c, endless) = Unit
Answer w now p patch e b (c, unavailable m) = (c ≡ b) × (usable e.socket b ≡ false)
Answer w now p patch e b (c, unknown_chooser key) = (c ≡ b) × (key ≡ patch.key)
Answer w now p patch e b (c, unknown_routine routine) = (c ≡ b) × (routine ≡ patch.selected)

record Published (name : Text) (e : Entry) (out : Bridge × Entry × Bool) : Type 0 where
  went : out.2 ≡ true
  values : out.1.values_by_name ≡ e.values_by_name
  socket : out.1.socket ≡ e.socket
  topic : Topic
  advertised : get_by same name out.1.published_topics ≡ some topic

send_json-usable :
    (e : Entry) (f : Frame) (b : Bridge) → usable e.socket b ≡ true → (send_json e f b).1 ≡ true
unfolding send_json
send_json-usable e f b h = rw h refl

publish_string_topic-Published :
    (id : ℕ) (name : Text) (e : Entry) (b : Bridge)
    → usable e.socket b ≡ true
    → Published name e (publish_string_topic id name e b)
unfolding publish_string_topic
publish_string_topic-Published id name e b h =
    elim (Option-cases (get_by same name e.published_topics)) [
      | inl f ↦
          let topic : Topic = record { id = whole id; name = name; type = codes "string" } in
          rw f (record {
            went =
                send_json-usable
                  (record e { published_topics = put_by same name topic e.published_topics })
                  (publish topic) b h;
            values = refl;
            socket = refl;
            topic = topic;
            advertised =
                get_by-put_by same same→eq name name topic e.published_topics
                ∙ rw (same_refl name) refl;
          })
      | inr (topic, f) ↦
          rw f (record { went = refl; values = refl; socket = refl; topic = topic; advertised = f })
    ]

last_sent :
    (o : Option ℕ) (s : ℕ) (f : Frame) (b : Bridge)
    → o ≡ some s
    → (send o f b).sent ≡ b.sent ++ ((s, f) ∷ [])
last_sent o s f b h = ap (λ i. (send i f b).sent) h

send-entries : (o : Option ℕ) (f : Frame) (b : Bridge) → (send o f b).entries ≡ b.entries
send-entries none f b = refl
send-entries (some s) f b = refl

==-same : (n : ℕ) → (n == n) ≡ true
==-same n = ground arith

stored_there : (w : ℕ) (e : Entry) (b : Bridge) → get w (store w e b).entries ≡ some e
stored_there w e b = get-put w w e b.entries ∙ rw (==-same w) refl

usable-socket : (o : Option ℕ) (b : Bridge) → usable o b ≡ true → (s : ℕ) × (o ≡ some s)
usable-socket none b h = cc
usable-socket (some s) b h = (s, refl)

-- The reply, given all but the snapshot.
reply_of-Answer :
    (w now : ℕ) (p : Platform) (patch : AutoChooserPatch) (e : Entry) (b c : Bridge)
    (o : Option Snapshot)
    → ((snapshot : Snapshot) → o ≡ some snapshot → Written w now p patch e c snapshot)
    → Answer w now p patch e b (c, reply_of o)
reply_of-Answer w now p patch e b c none f = tt
reply_of-Answer w now p patch e b c (some snapshot) f = f snapshot refl

set_selected-value :
    (now : ℕ) (patch : AutoChooserPatch) (e : Entry) (name : Text)
    → value_of (set_selected now patch e).values_by_name name ≡ (
        if same (normalize_topic_name (selected_topic patch.key)) name
        then some (str patch.selected)
        else value_of e.values_by_name name)
unfolding set_selected
set_selected-value now patch e name =
    get_by-put_by same same→eq (normalize_topic_name (selected_topic patch.key)) name
      (str patch.selected) e.values_by_name

set_selected-published :
    (now : ℕ) (patch : AutoChooserPatch) (e : Entry)
    → (set_selected now patch e).published_topics ≡ e.published_topics
unfolding set_selected
set_selected-published now patch e = refl

send_selection-Answer :
    (w now : ℕ) (p : Platform) (patch : AutoChooserPatch) (e : Entry) (b : Bridge)
    (out : Bridge × Entry × Bool)
    → usable e.socket b ≡ true
    → Published (selected_topic patch.key) e out
    → Answer w now p patch e b (send_selection p w now patch out)
unfolding send_selection
send_selection-Answer w now p patch e b (c, next, false) h done = let no = done.went in cc
send_selection-Answer w now p patch e b (c, next, true) h done =
    reply_of-Answer w now p patch e b _ (snapshot_from_entry p (set_selected now patch next))
      λ snapshot shown.
        let (s, f) = usable-socket e.socket b h in
        let frame = binary (
          encode_msg_pack p.codec (
            selection now (get_by same (selected_topic patch.key) next.published_topics)
              patch.selected)) in
        record {
          last = set_selected now patch next;
          stored = stored_there w (set_selected now patch next) (send next.socket frame c);
          shown = shown;
          there = λ name.
              set_selected-value now patch next name
              ∙ ap
                  (λ x.
                    if same (normalize_topic_name (selected_topic patch.key)) name
                    then some (str patch.selected)
                    else value_of x name)
                  done.values;
          topic = done.topic;
          advertised =
              ap (get_by same (selected_topic patch.key)) (set_selected-published now patch next)
              ∙ done.advertised;
          socket = s;
          current = f;
          front = c.sent;
          sends =
              last_sent next.socket s frame c (done.socket ∙ f)
              ∙ ap
                  (λ x.
                    c.sent
                    ++ ((s, binary (encode_msg_pack p.codec (selection now x patch.selected)))
                        ∷ []))
                  done.advertised;
        }

choose-Answer :
    (w now id : ℕ) (p : Platform) (patch : AutoChooserPatch) (e : Entry) (b : Bridge)
    → usable e.socket b ≡ true
    → Answer w now p patch e b (choose p w now id patch e b)
unfolding choose
choose-Answer w now id p patch e b h =
    send_selection-Answer w now p patch e b (publish_string_topic id (selected_topic patch.key) e b)
      h (publish_string_topic-Published id (selected_topic patch.key) e b h)

select_from-Answer :
    (w now id : ℕ) (p : Platform) (patch : AutoChooserPatch) (e : Entry) (b : Bridge)
    (snapshot : Snapshot)
    → Answer w now p patch e b (select_from p w now id patch e b snapshot)
unfolding select_from
select_from-Answer w now id p patch e b snapshot = elim (Bool-cases (usable e.socket b)) [
  | inl h ↦ elim (Option-cases (find_chooser patch.key snapshot.choosers)) [
    | inl f ↦ rw (h, f) (refl, refl)
    | inr (chooser, f) ↦ elim (Bool-cases (has_by same patch.selected chooser.options)) [
      | inl g ↦ rw (h, f, g) (choose-Answer w now id p patch e b h)
      | inr g ↦ rw (h, f, g) (refl, refl)
    ]
  ]
  | inr h ↦ rw h (refl, h)
]

select_shown-Answer :
    (w now id : ℕ) (p : Platform) (patch : AutoChooserPatch) (e : Entry) (b : Bridge)
    (o : Option Snapshot)
    → Answer w now p patch e b (select_shown p w now id patch e b o)
unfolding select_shown
select_shown-Answer w now id p patch e b none = tt
select_shown-Answer w now id p patch e b (some snapshot) =
    select_from-Answer w now id p patch e b snapshot

-- `select` either ends with a snapshot, where the routine stands in the kept values at the chooser's
-- name and all other values are as they were, and the last frame sent went out on the entry's
-- socket and is the row of that topic's id, the time, the type of a text and the routine; or it throws,
-- and then the bridge is as `ensureConnected` left it. Nothing is said where it does not end.
pub select-Answer :
    (w : ℕ) (target : Target) (now id : ℕ) (p : Platform) (patch : AutoChooserPatch) (b : Bridge)
    → let (c, e) = ensure_connected w (upstream_url_for target) b in
      Answer w now p patch e c (select p w target now id patch b)
unfolding select
select-Answer w target now id p patch b =
    let (c, e) = ensure_connected w (upstream_url_for target) b in
    select_shown-Answer w now id p patch e c (snapshot_from_entry p e)

chosen {ℓ} : {A : Type ℓ} {a b : Text} {x : A} (y : A) → a ≡ b → (if same a b then x else y) ≡ x
chosen {a} {b} {x} y e = rw (e, same_refl b) refl

-- Once `select` has ended with a snapshot, the routine is what is read as selected for the chooser,
-- provided that its key is not empty and stays as it is when it is normalized.
pub select-read_string :
    (w : ℕ) (target : Target) (now id : ℕ) (p : Platform) (patch : AutoChooserPatch) (b c : Bridge)
    (snapshot : Snapshot)
    → normalize_topic_name patch.key ≡ patch.key
    → patch.key ≢ []
    → select p w target now id patch b ≡ (c, ok snapshot)
    → (last : Entry) × (get w c.entries ≡ some last)
      × (read_string last.values_by_name patch.key (codes "selected") ≡ some patch.selected)
unfolding read_string
select-read_string w target now id p patch b c snapshot kept full e =
    let (d, f) = ensure_connected w (upstream_url_for target) b in
    let answer : Written w now p patch f c snapshot =
      subst (λ x. Answer w now p patch f d x) e (select-Answer w target now id p patch b) in
    let at : normalize_topic_name (selected_topic patch.key) ≡ under patch.key (codes "selected") =
      normalize-published patch.key (codes "/selected") (λ z. full (sym kept ∙ z))
      ∙ ap (λ x. x ++ codes "/selected") kept in
    let here : value_of answer.last.values_by_name (under patch.key (codes "selected"))
        ≡ some (str patch.selected) =
      answer.there (under patch.key (codes "selected")) ∙ chosen _ at in
    (answer.last, answer.stored, rw here refl)
