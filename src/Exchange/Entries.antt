-- ===== src/Exchange/Entries.antt =====
-- Datasets as values of the JSON library.
use compute_web_app.Prelude.{
  ℕ, ◌≡◌, refl, sym, ap, ◌∙◌, ◌⊎◌, inl, inr, List, [], ◌∷◌, ◌++◌, some, true, false, is_empty, ◌==◌,
  Bool-cases, ==_iff,
}
use compute_web_app.Prelude.Words.{u32_max}
use compute_web_app.Prelude.Text.{codes}
use compute_web_app.Outcome.{ok}
use compute_web_app.Exchange.Library.{Json, IsJson}
use compute_web_app.Exchange.{Entry, entry_json, client_id_of}

module _ {J C : Type 0} (json : Json J C) (laws : IsJson json) where
  -- A JSON value that holds these items: an array, or null where there is none.
  abbrev pub Holds : J → List J → Type 0
  Holds j xs = ((j ≡ json.null) × (xs ≡ [])) ⊎ (j ≡ laws.array xs)

  -- A JSON object that is read as this dataset.
  pub record IsEntry (d : J) (e : Entry) : Type 0 where
    pub id : (v : J) × (json.get (codes "id") d ≡ some v) × (json.to_number v ≡ some e.id)
    pub filename :
        (v : J) × (json.get (codes "filename") d ≡ some v) × (json.to_text v ≡ some e.filename)
    pub client_id : client_id_of json d ≡ ok e.client_id

  abbrev pub AreEntries : List J → List Entry → Type 0
  AreEntries [] [] = Unit {0}
  AreEntries [] (e ∷ es) = ⊥
  AreEntries (d ∷ ds) [] = ⊥
  AreEntries (d ∷ ds) (e ∷ es) = IsEntry d e × AreEntries ds es

  pub AreEntries-last :
      (ds : List J) (es : List Entry) (d : J) (e : Entry)
      → AreEntries ds es
      → IsEntry d e
      → AreEntries (ds ++ d ∷ []) (es ++ e ∷ [])
  AreEntries-last [] [] d e h k = (k, tt)
  AreEntries-last [] (e' ∷ es) d e h k = absurd h
  AreEntries-last (d' ∷ ds) [] d e h k = absurd h
  AreEntries-last (d' ∷ ds) (e' ∷ es) d e h k = (h.0, AreEntries-last ds es d e h.1 k)

  pub push-Holds :
      (v : J) (xs : List J) (x : J)
      → Holds v xs
      → json.push_back v x ≡ some (laws.array (xs ++ x ∷ []))
  push-Holds v xs x (inl (e, none_yet)) = rw (e, none_yet) (laws.push_back_null x)
  push-Holds v xs x (inr e) = rw e (laws.push_back_array xs x)

  pub empty-Holds : (v : J) (xs : List J) → Holds v xs → json.empty v ≡ is_empty xs
  empty-Holds v xs (inl (e, none_yet)) = rw (e, none_yet) laws.empty_null
  empty-Holds v xs (inr e) = rw e (laws.empty_array xs)

  client_absent :
      (d : J) → json.contains (codes "client_id") d ≡ false → client_id_of json d ≡ ok u32_max
  unfolding client_id_of
  client_absent d h = rw h refl

  client_present :
      (d v : J) (n : ℕ)
      → json.contains (codes "client_id") d ≡ true
      → json.get (codes "client_id") d ≡ some v
      → json.to_number v ≡ some n
      → client_id_of json d ≡ ok n
  unfolding client_id_of
  client_present d v n h k l = rw (h, k, l) refl

  -- The object that PushDataset makes for a dataset.
  pub entry_json-IsEntry :
      (e : Entry)
      → laws.IsPlain (json.text e.filename)
      → (d : J) × (entry_json json e ≡ ok d) × IsEntry d e × laws.IsPlain d
  unfolding entry_json
  entry_json-IsEntry e utf8 =
      let (j, set_id, obj, got_id, _, others) =
        laws.set_object (codes "id") (json.number e.id) json.null laws.null_object in
      let (k, set_name, obj', got_name, _, others') =
        laws.set_object (codes "filename") (json.text e.filename) j obj in
      let plain : laws.IsPlain k =
        laws.plain_set (codes "filename") (json.text e.filename) j k refl utf8
          (laws.plain_set (codes "id") (json.number e.id) json.null j refl (laws.plain_number e.id)
            laws.plain_null set_id)
          set_name in
      elim (Bool-cases (e.client_id == u32_max)) [
        | inl no_client ↦ (
          k,
          rw (set_id, set_name, no_client) refl,
          record {
            id = (
              json.number e.id,
              (others' (codes "id") refl).0 ∙ got_id,
              laws.to_number_number e.id,
            );
            filename = (json.text e.filename, got_name, laws.to_text_text e.filename);
            client_id =
                client_absent k (
                  (others' (codes "client_id") refl).1
                  ∙ (others (codes "client_id") refl).1
                  ∙ laws.contains_null (codes "client_id"))
                ∙ ap ok (sym ((==_iff e.client_id u32_max).0 no_client));
          },
          plain,
        )
        | inr client ↦
            let (l, set_client, _, got_client, there, others'') =
              laws.set_object (codes "client_id") (json.number e.client_id) k obj' in
            (
              l,
              rw (set_id, set_name, client, set_client) refl,
              record {
                id = (
                  json.number e.id,
                  (others'' (codes "id") refl).0 ∙ (others' (codes "id") refl).0 ∙ got_id,
                  laws.to_number_number e.id,
                );
                filename = (
                  json.text e.filename,
                  (others'' (codes "filename") refl).0 ∙ got_name,
                  laws.to_text_text e.filename,
                );
                client_id =
                    client_present l (json.number e.client_id) e.client_id there got_client
                      (laws.to_number_number e.client_id);
              },
              laws.plain_set (codes "client_id") (json.number e.client_id) k l refl
                  (laws.plain_number e.client_id) plain set_client,
            )
      ]
