-- ===== src/Exchange/Queue.antt =====
-- The exchange file as a queue of datasets.
use compute_web_app.Prelude.{
  ◌≡◌, refl, ap, ◌∙◌, inl, inr, List, [], ◌∷◌, ◌++◌, some, Bool, true, not, is_empty, Bool-cases,
  Option-cases, false,
}
use compute_web_app.Prelude.Text.{Text, codes, text_eq}
use compute_web_app.Outcome.{ok}
use compute_web_app.Exchange.Library.{Json, IsJson, is_ascii}
use compute_web_app.Exchange.{
  Entry, ExchangeFile, parse_document, or_null, read_json, write_json, init, push_at, push_dataset,
  has_dataset, get_first_dataset, pop_first_dataset,
}
use compute_web_app.Exchange.Entries.{
  Holds, IsEntry, AreEntries, AreEntries-last, push-Holds, empty-Holds, entry_json-IsEntry,
}

module _ {J C : Type 0} (json : Json J C) (laws : IsJson json) where
  -- The file can be written and locked in time, and holds this queue.
  pub record Shows (st : ExchangeFile C) (queue : List Entry) : Type 0 where
    pub writable : st.writable ≡ true
    pub lock_in_time : st.lock_in_time ≡ true
    pub object : laws.IsObject (read_json json st)
    pub value : J
    pub items : List J
    pub found : json.get (codes "datasets") (read_json json st) ≡ some value
    pub holds : Holds json laws value items
    pub entries : AreEntries json laws items queue

  -- Another key keeps its value.
  abbrev pub Keeps : Text → ExchangeFile C → ExchangeFile C → Type 0
  Keeps key st st' =
      (other : Text)
      → text_eq other key ≡ false
      → json.get other (read_json json st') ≡ json.get other (read_json json st)

  pub read_json-IsPlain : (st : ExchangeFile C) → laws.IsPlain (read_json json st)
  unfolding read_json parse_document or_null
  read_json-IsPlain st = elim (Option-cases st.document) [
    | inl missing ↦ rw missing laws.plain_null
    | inr (text, there) ↦ elim (Option-cases (json.parse text)) [
      | inl broken ↦ rw (there, broken) laws.plain_null
      | inr (j, parsed) ↦ rw (there, parsed) (laws.plain_parse text j parsed)
    ]
  ]

  -- With the lock, a value that can be written stands in a file that can be written.
  abbrev pub Writes : ExchangeFile C → J → ExchangeFile C → Type 0
  Writes st j st' =
      (write_json json st j ≡ ok st')
      × (read_json json st' ≡ j)
      × (st'.writable ≡ true)
      × (st'.lock_in_time ≡ st.lock_in_time)
      × (st'.locked ≡ true)
      × ((text : C) × (st'.document ≡ some text))

  pub write_json-Writes :
      (st : ExchangeFile C) (j : J)
      → st.writable ≡ true
      → st.locked ≡ true
      → laws.IsPlain j
      → (st' : ExchangeFile C) × Writes st j st'
  unfolding read_json write_json
  write_json-Writes st j w locked plain =
      let (text, dumped, parsed) = laws.dump_plain j plain in
      (
        record st { document = some text },
        (rw (locked, dumped, w) refl, rw parsed refl, w, refl, locked, (text, refl)),
      )

  -- A key of a file gets a value.
  pub key-Writes :
      (key : Text) (v : J) (st : ExchangeFile C)
      → st.writable ≡ true
      → st.locked ≡ true
      → laws.IsObject (read_json json st)
      → is_ascii key ≡ true
      → laws.IsPlain v
      → (j : J) × (st' : ExchangeFile C) × (json.set key v (read_json json st) ≡ some j)
        × Writes st j st'
        × laws.IsObject (read_json json st')
        × (json.get key (read_json json st') ≡ some v)
        × Keeps key st st'
  key-Writes key v st w locked obj ascii plain =
      let (j, set, obj', got, _, others) = laws.set_object key v (read_json json st) obj in
      let (st', writes) =
        write_json-Writes st j w locked
          (laws.plain_set key v (read_json json st) j ascii plain (read_json-IsPlain st) set) in
      let same = writes.1 in
      (j, st', set, writes, rw same obj', rw same got, λ other ne. rw same (others other ne).0)

  -- A file that was written under the key of the queue.
  Shows-written :
      (st st' : ExchangeFile C) (j : J) (items : List J) (queue : List Entry)
      → st.lock_in_time ≡ true
      → Writes st j st'
      → laws.IsObject (read_json json st')
      → json.get (codes "datasets") (read_json json st') ≡ some (laws.array items)
      → AreEntries json laws items queue
      → Shows st' queue
  Shows-written st st' j items queue in_time writes obj got entries = record {
    writable = writes.2;
    lock_in_time = writes.3 ∙ in_time;
    object = obj;
    value = laws.array items;
    items = items;
    found = got;
    holds = inr refl;
    entries = entries;
  }

  -- PushDataset, with the lock, puts a dataset whose file name is UTF-8 at the end of the queue that
  -- the file holds.
  pub push_dataset-Shows :
      (st : ExchangeFile C) (queue : List Entry) (e : Entry)
      → st.locked ≡ true
      → laws.IsPlain (json.text e.filename)
      → Shows st queue
      → (st' : ExchangeFile C) × (push_dataset json e st ≡ ok st')
        × Shows st' (queue ++ e ∷ [])
        × Keeps (codes "datasets") st st'
  unfolding push_dataset push_at
  push_dataset-Shows st queue e locked utf8 shows =
      let (d, made, is_entry, plain) = entry_json-IsEntry json laws e utf8 in
      let items = shows.items ++ d ∷ [] in
      let pushed = push-Holds json laws shows.value shows.items d shows.holds in
      let plain_items : laws.IsPlain (laws.array items) =
        laws.plain_push_back shows.value d (laws.array items)
          (laws.plain_get (codes "datasets") (read_json json st) shows.value (read_json-IsPlain st)
            shows.found)
          plain pushed in
      let (j, st', set, writes, obj, got, keeps) =
        key-Writes (codes "datasets") (laws.array items) st shows.writable locked shows.object refl
          plain_items in
      (
        st',
        rw (made, shows.found, pushed, set) writes.0,
        Shows-written st st' j items (queue ++ e ∷ []) shows.lock_in_time writes obj got
            (AreEntries-last json laws shows.items queue d e shows.entries is_entry),
        keeps,
      )

  -- HasDataset says whether the queue has a dataset.
  pub has_dataset-Shows :
      (st : ExchangeFile C) (queue : List Entry)
      → Shows st queue
      → has_dataset json st ≡ ok (not (is_empty queue))
  unfolding has_dataset
  has_dataset-Shows st queue shows =
      rw (shows.found, empty-Holds json laws shows.value shows.items shows.holds)
        (ap (λ b. ok (not b)) (same_empty shows.items queue shows.entries))
    where
      same_empty :
          (ds : List J) (es : List Entry) → AreEntries json laws ds es → is_empty ds ≡ is_empty es
      same_empty [] [] h = refl
      same_empty [] (e ∷ es) h = absurd h
      same_empty (d ∷ ds) [] h = absurd h
      same_empty (d ∷ ds) (e ∷ es) h = refl

  get_entry :
      (st : ExchangeFile C) (v d : J) (ds : List J) (e : Entry)
      → json.get (codes "datasets") (read_json json st) ≡ some v
      → v ≡ laws.array (d ∷ ds)
      → IsEntry json laws d e
      → get_first_dataset json st ≡ ok e
  unfolding get_first_dataset
  get_entry st v d ds e found is_array is_entry =
      rw
        (
          found,
          is_array,
          laws.first_array d ds,
          is_entry.id.1,
          is_entry.id.2,
          is_entry.filename.1,
          is_entry.filename.2,
          is_entry.client_id,
        )
        refl

  pub pop_array :
      (st : ExchangeFile C) (v d : J) (ds : List J) (es : List Entry)
      → st.writable ≡ true
      → st.lock_in_time ≡ true
      → laws.IsObject (read_json json st)
      → st.locked ≡ true
      → json.get (codes "datasets") (read_json json st) ≡ some v
      → v ≡ laws.array (d ∷ ds)
      → AreEntries json laws ds es
      → (st' : ExchangeFile C) × (pop_first_dataset json st ≡ ok st')
        × Shows st' es
        × (st'.locked ≡ true)
        × Keeps (codes "datasets") st st'
  unfolding pop_first_dataset
  pop_array st v d ds es w in_time obj locked found is_array entries =
      let erased : json.erase_first v ≡ some (laws.array ds) =
        rw is_array (laws.erase_first_array d ds) in
      let plain : laws.IsPlain (laws.array ds) =
        laws.plain_erase_first v (laws.array ds)
          (laws.plain_get (codes "datasets") (read_json json st) v (read_json-IsPlain st) found)
          erased in
      let (j, st', set, writes, obj', got, keeps) =
        key-Writes (codes "datasets") (laws.array ds) st w locked obj refl plain in
      (
        st',
        rw (found, erased, set) writes.0,
        Shows-written st st' j ds es in_time writes obj' got entries,
        writes.4,
        keeps,
      )

  front_cases :
      (st : ExchangeFile C) (v : J) (ds : List J) (e : Entry) (es : List Entry)
      → st.writable ≡ true
      → st.lock_in_time ≡ true
      → laws.IsObject (read_json json st)
      → json.get (codes "datasets") (read_json json st) ≡ some v
      → Holds json laws v ds
      → AreEntries json laws ds (e ∷ es)
      → (get_first_dataset json st ≡ ok e)
        × (st.locked ≡ true
            → (st' : ExchangeFile C) × (pop_first_dataset json st ≡ ok st')
              × Shows st' es
              × (st'.locked ≡ true)
              × Keeps (codes "datasets") st st')
  front_cases st v [] e es w in_time obj found holds entries = absurd entries
  front_cases st v (d ∷ ds) e es w in_time obj found (inl (_, none_yet)) entries = cc
  front_cases st v (d ∷ ds) e es w in_time obj found (inr is_array) entries = (
    get_entry st v d ds e found is_array entries.0,
    λ locked. pop_array st v d ds es w in_time obj locked found is_array entries.1,
  )

  pub front-Shows :
      (st : ExchangeFile C) (e : Entry) (queue : List Entry)
      → Shows st (e ∷ queue)
      → (get_first_dataset json st ≡ ok e)
        × (st.locked ≡ true
            → (st' : ExchangeFile C) × (pop_first_dataset json st ≡ ok st')
              × Shows st' queue
              × (st'.locked ≡ true)
              × Keeps (codes "datasets") st st')
  front-Shows st e queue shows =
      front_cases st shows.value shows.items e queue shows.writable shows.lock_in_time shows.object
        shows.found shows.holds shows.entries

  -- GetFirstDataset reads the dataset at the front of the queue, with its index, file name and
  -- client, and PopFirstDataset, with the lock, takes it off.
  pub first-Shows :
      (st : ExchangeFile C) (e : Entry) (queue : List Entry)
      → st.locked ≡ true
      → Shows st (e ∷ queue)
      → (get_first_dataset json st ≡ ok e)
        × ((st' : ExchangeFile C) × (pop_first_dataset json st ≡ ok st') × Shows st' queue)
  first-Shows st e queue locked shows =
      let (first, pops) = front-Shows st e queue shows in
      let (st', popped, shows', _, _) = pops locked in (first, (st', popped, shows'))

  Shows-none :
      (st st' : ExchangeFile C) (j : J)
      → st.lock_in_time ≡ true
      → Writes st j st'
      → laws.IsObject j
      → json.get (codes "datasets") j ≡ some json.null
      → Shows st' []
  Shows-none st st' j in_time writes obj got = record {
    writable = writes.2;
    lock_in_time = writes.3 ∙ in_time;
    object = rw writes.1 obj;
    value = json.null;
    items = [];
    found = rw writes.1 got;
    holds = inl (refl, refl);
    entries = tt;
  }

  pub empty_key :
      (key : Text) (j j' : J)
      → is_ascii key ≡ true
      → laws.IsPlain j
      → json.set key json.null j ≡ some j'
      → laws.IsPlain j'
  empty_key key j j' ascii plain = laws.plain_set key json.null j j' ascii laws.plain_null plain

  -- Init, with the lock, makes a file that can be written hold the empty queue, for suppliers and for
  -- aggregators, whatever stood in it.
  pub init-Shows :
      (is_aggregator : Bool) (st : ExchangeFile C)
      → st.writable ≡ true
      → st.lock_in_time ≡ true
      → st.locked ≡ true
      → (st' : ExchangeFile C) × (init json is_aggregator st ≡ ok st') × Shows st' []
  unfolding init
  init-Shows is_aggregator st w in_time locked =
      let (j, set, obj, got, _, _) =
        laws.set_object (codes "datasets") json.null json.null laws.null_object in
      let plain = empty_key (codes "datasets") json.null j refl laws.plain_null set in
      elim (Bool-cases is_aggregator) [
        | inr supplier ↦
            let (st', writes) = write_json-Writes st j w locked plain in
            (st', rw (supplier, set) writes.0, Shows-none st st' j in_time writes obj got)
        | inl aggregator ↦
            let (k, set', obj', _, _, others) = laws.set_object (codes "clients") json.null j obj in
            let (l, set'', obj'', _, _, others') =
              laws.set_object (codes "unregistered_clients") json.null k obj' in
            let plain' = empty_key (codes "clients") j k refl plain set' in
            let (st', writes) =
              write_json-Writes st l w locked
                (empty_key (codes "unregistered_clients") k l refl plain' set'') in
            (
              st',
              rw (aggregator, set, set', set'') writes.0,
              Shows-none st st' l in_time writes obj''
                  ((others' (codes "datasets") refl).0 ∙ (others (codes "datasets") refl).0 ∙ got),
            )
      ]
