-- ===== src/Exchange/Readers/Order.antt =====
-- Every dataset reaches the exchange file once, before the end signal, in whatever order the threads
-- end.
use native.Mathlib.Nat.{mod-lt}
use mathlib.Core.Path.{subst}
use compute_web_app.Prelude.{
  ℕ, zero, suc, ◌<◌, ◌%◌, ◌≡◌, refl, sym, ap, List, [], ◌∷◌, ◌++◌, some, false, length, is_empty,
  arith, append_assoc, append-nil,
}
use compute_web_app.Prelude.Text.{Text}
use compute_web_app.Outcome.{ok}
use compute_web_app.Dataset.{Files}
use compute_web_app.Exchange.Library.{Json, IsJson}
use compute_web_app.Exchange.{Entry, new_entry, lock_file, unlock_file}
use compute_web_app.Exchange.Queue.{Shows, push_dataset-Shows}
use compute_web_app.Exchange.Transfer.Carried.{Shows-lock, locked_in_time, Shows-unlock}
use compute_web_app.Exchange.Readers.{
  ServerFile, read_ahead, take_at, read_next, run_reader, join, push_end_as_server,
}

-- The second list has the entries of the first, each as often, in an order in which they are taken out
-- one by one.
pub data Picks : List Entry → List Entry → Type 0 where
  none_left : Picks [] []
  pick : (xs ys zs : List Entry) (e : Entry) → Picks (xs ++ ys) zs → Picks (xs ++ e ∷ ys) (e ∷ zs)

-- The files of the entries are there, and not empty.
abbrev pub AreReadable : Files → List Entry → Type 0
AreReadable fs [] = Unit {0}
AreReadable fs (e ∷ es) =
    ((bytes : List ℕ) × (fs.contents e.filename ≡ some bytes) × (is_empty bytes ≡ false))
    × AreReadable fs es

take_at-split :
    (k : ℕ) (es : List Entry)
    → k < length es
    → (xs ys : List Entry) × (e : Entry) × (take_at k es ≡ some (e, xs ++ ys)) × (es ≡ xs ++ e ∷ ys)
unfolding take_at
take_at-split k [] h = absurd (omega arith)
take_at-split zero (e ∷ es) h = ([], es, e, refl, refl)
take_at-split (suc k) (e ∷ es) h =
    let (xs, ys, x, taken, split) = take_at-split k es (omega arith) in
    (e ∷ xs, ys, x, rw taken refl, ap (◌∷◌ e) split)

readable-split :
    (fs : Files) (xs ys : List Entry) (e : Entry)
    → AreReadable fs (xs ++ e ∷ ys)
    → (read_ahead fs e.filename ≡ ok tt)
      × ((bytes : List ℕ) × (fs.contents e.filename ≡ some bytes))
      × AreReadable fs (xs ++ ys)
unfolding read_ahead
readable-split fs [] ys e ((bytes, stands, some_byte), h) =
    (rw (read_ahead, stands, some_byte) refl, (bytes, stands), h)
readable-split fs (x ∷ xs) ys e (here, h) =
    let (read, there, rest) = readable-split fs xs ys e h in (read, there, (here, rest))

pub length-middle :
    (xs ys : List Entry) (e : Entry) → length (xs ++ e ∷ ys) ≡ suc (length (xs ++ ys))
length-middle [] ys e = refl
length-middle (x ∷ xs) ys e = ap suc (length-middle xs ys e)

module _ {J C : Type 0} (json : Json J C) (laws : IsJson json) (fs : Files)
    (utf8 : (name : Text) (bytes : List ℕ)
      → fs.contents name ≡ some bytes
      → laws.IsPlain (json.text name)) where
  run_reader-Shows :
      (st : ServerFile C) (queue xs ys : List Entry) (e : Entry)
      → read_ahead fs e.filename ≡ ok tt
      → laws.IsPlain (json.text e.filename)
      → Shows json laws st.exchange queue
      → (st' : ServerFile C) × (run_reader json fs (some (e, xs ++ ys)) st ≡ ok st')
        × (st'.reading ≡ xs ++ ys)
        × Shows json laws st'.exchange (queue ++ e ∷ [])
  unfolding read_next
  run_reader-Shows st queue xs ys e read plain shows =
      let (exchange, pushed, shows', _) =
        push_dataset-Shows json laws (lock_file st.exchange) queue e
          (locked_in_time json laws st.exchange queue shows) plain
          (Shows-lock json laws st.exchange queue shows) in
      (
        record { exchange = unlock_file exchange; reading = xs ++ ys },
        rw (read, pushed) refl,
        refl,
        Shows-unlock json laws exchange (queue ++ e ∷ []) shows',
      )

  join-Picks :
      (choices : List ℕ) (st : ServerFile C) (reading queue : List Entry)
      → st.reading ≡ reading
      → length choices ≡ length reading
      → AreReadable fs reading
      → Shows json laws st.exchange queue
      → (st' : ServerFile C) × (picked : List Entry) × (join json fs choices st ≡ ok st')
        × (st'.reading ≡ [])
        × Picks reading picked
        × Shows json laws st'.exchange (queue ++ picked)
  unfolding join run_reader-Shows
  join-Picks [] st [] queue e n h shows = (st, [], refl, e, none_left, rw (append-nil queue) shows)
  join-Picks [] st (x ∷ reading) queue e n h shows = absurd (omega arith)
  join-Picks (k ∷ ks) st [] queue e n h shows = absurd (omega arith)
  join-Picks (k ∷ ks) st (x ∷ reading) queue e n h shows =
      let (xs, ys, y, taken, split) =
        take_at-split (k % length (x ∷ reading)) (x ∷ reading) (mod-lt k (omega arith)) in
      let (read, (bytes, there), others) =
        readable-split fs xs ys y (subst (AreReadable fs) split h) in
      let (st', ran, left, shows') =
        run_reader-Shows st queue xs ys y read (utf8 y.filename bytes there) shows in
      let fewer : length ks ≡ length (xs ++ ys) =
        omega (arith, ap length split, length-middle xs ys y) in
      let (st'', picked, joined, empty, picks, shows'') =
        join-Picks ks st' (xs ++ ys) (queue ++ y ∷ []) left fewer others shows' in
      (
        st'',
        y ∷ picked,
        rw (e, taken, ran) joined,
        empty,
        subst (λ l. Picks l (y ∷ picked)) (sym split) (pick xs ys picked y picks),
        rw (← append_assoc queue (y ∷ []) picked) shows'',
      )

  pub push_end_as_server-Picks :
      (choices : List ℕ) (st : ServerFile C) (queue : List Entry)
      → length choices ≡ length st.reading
      → AreReadable fs st.reading
      → Shows json laws st.exchange queue
      → (st' : ServerFile C) × (picked : List Entry) × (push_end_as_server json fs choices st
          ≡ ok st')
        × (st'.reading ≡ [])
        × Picks st.reading picked
        × Shows json laws st'.exchange ((queue ++ picked) ++ new_entry ∷ [])
  unfolding push_end_as_server
  push_end_as_server-Picks choices st queue n h shows =
      let (st', picked, joined, empty, picks, shows') =
        join-Picks choices st st.reading queue refl n h shows in
      let (exchange, pushed, shows'', _) =
        push_dataset-Shows json laws (lock_file st'.exchange) (queue ++ picked) new_entry
          (locked_in_time json laws st'.exchange (queue ++ picked) shows')
          (laws.plain_ascii [] refl) (Shows-lock json laws st'.exchange (queue ++ picked) shows') in
      (
        record st' { exchange = unlock_file exchange },
        picked,
        rw (joined, pushed) refl,
        empty,
        picks,
        Shows-unlock json laws exchange ((queue ++ picked) ++ new_entry ∷ []) shows'',
      )
