-- ===== src/Socket/Url/Endpoint.antt =====
-- The URL that a server tells with GetInfo is one that a client can register with.
use compute_web_app.Prelude.{
  ℕ, ◌%◌, ◌^◌, ◌<◌, ◌≡◌, refl, ap, ◌∙◌, [], ◌∷◌, ◌++◌, Option, some, Bool, true, false, ◌==◌,
  is_empty, arith, append_assoc, append-nil,
}
use compute_web_app.Prelude.Text.{Text, to_text}
use compute_web_app.Outcome.{ok}
use compute_web_app.Socket.Url.{
  Regex, char, both, either, split, split_from, matches, digits, dotted, url_regex, regex_match,
  atoi_from, url_parts, get_info, client_endpoint, server_endpoint,
}
use compute_web_app.Socket.Url.Digits.{
  or_true, AreDigits, pow10, Spells, decimal_digits-Spells, digits-match, atoi_from-value,
}

-- The text of an IPv4 address.
abbrev pub dotted_text : ℕ → ℕ → ℕ → ℕ → Text
dotted_text a b c d =
    to_text a ++ (b'.' ∷ (to_text b ++ (b'.' ∷ (to_text c ++ (b'.' ∷ to_text d)))))

pub to_text-Spells : (k n : ℕ) → 0 < k → k < 11 → n < pow10 k → Spells n k [] (to_text n)
unfolding to_text
to_text-Spells k n h l b = decimal_digits-Spells 10 k n [] h (omega arith) b

to_text-match :
    (k n : ℕ) (rest : Text → Bool) (t : Text)
    → 0 < k
    → k < 11
    → n < pow10 k
    → rest t ≡ true
    → matches (digits k) rest (to_text n ++ t) ≡ true
to_text-match k n rest t h l b r =
    let s = to_text-Spells k n h l b in
    rw (s.same ∙ append-nil (s.first ∷ s.more))
      (digits-match k rest s.first s.more t s.all_digits s.few r)

dot-match :
    (n : ℕ) (rest : Text → Bool) (t : Text)
    → n < 256
    → rest t ≡ true
    → matches (digits 3) (λ u. matches (char b'.') rest u) (to_text n ++ (b'.' ∷ t)) ≡ true
unfolding matches
dot-match n rest t h r =
    to_text-match 3 n (λ u. matches (char b'.') rest u) (b'.' ∷ t) (omega arith) (omega arith)
      (omega arith) r

dotted-match :
    (a b c d : ℕ) (rest : Text → Bool) (t : Text)
    → a < 256
    → b < 256
    → c < 256
    → d < 256
    → rest t ≡ true
    → matches dotted rest (dotted_text a b c d ++ t) ≡ true
unfolding matches
dotted-match a b c d rest t ha hb hc hd r =
    rw
      (
        append_assoc (to_text a) (b'.' ∷ (to_text b ++ (b'.' ∷ (to_text c ++ (b'.' ∷ to_text d)))))
            t,
        append_assoc (to_text b) (b'.' ∷ (to_text c ++ (b'.' ∷ to_text d))) t,
        append_assoc (to_text c) (b'.' ∷ to_text d) t,
      )
      (dot-match a _ _ ha (
        dot-match b _ _ hb (
          dot-match c _ _ hc
            (to_text-match 3 d rest t (omega arith) (omega arith) (omega arith) r))))

-- No colon.
abbrev IsWord : Text → Type 0
IsWord [] = Unit {0}
IsWord (c ∷ cs) = ((c == b':') ≡ false) × IsWord cs

digits-IsWord : (cs : Text) → AreDigits cs → IsWord cs
digits-IsWord [] h = tt
digits-IsWord (c ∷ cs) h = (ground (arith, h.0), digits-IsWord cs h.1)

IsWord-append : (xs ys : Text) → IsWord xs → IsWord ys → IsWord (xs ++ ys)
IsWord-append [] ys h k = k
IsWord-append (x ∷ xs) ys h k = (h.0, IsWord-append xs ys h.1 k)

split_from-word :
    (w xs rest : Text) → IsWord xs → split_from b':' w (xs ++ rest) ≡ split_from b':' (w ++ xs) rest
unfolding split
split_from-word w [] rest h = rw append-nil refl
split_from-word w (x ∷ xs) rest h = rw h.0 (
    split_from-word (w ++ x ∷ []) xs rest h.1
    ∙ ap (λ v. split_from b':' v rest) (append_assoc w (x ∷ []) xs))

to_text-IsWord : (k n : ℕ) → 0 < k → k < 11 → n < pow10 k → IsWord (to_text n)
to_text-IsWord k n h l b =
    let s = to_text-Spells k n h l b in
    rw (s.same ∙ append-nil (s.first ∷ s.more)) (digits-IsWord (s.first ∷ s.more) s.all_digits)

dotted_text-IsWord :
    (a b c d : ℕ) → a < 256 → b < 256 → c < 256 → d < 256 → IsWord (dotted_text a b c d)
dotted_text-IsWord a b c d ha hb hc hd =
    let word =
      λ (n : ℕ) (h : n < 256). to_text-IsWord 3 n (omega arith) (omega arith) (omega arith) in
    IsWord-append (to_text a) _ (word a ha) (
      refl,
      IsWord-append (to_text b) _ (word b hb)
          (refl, IsWord-append (to_text c) _ (word c hc) (refl, word d hd)),
    )

module _ (a b c d port : ℕ) (ha : a < 256) (hb : b < 256) (hc : c < 256) (hd : d < 256)
    (hp : port < 2 ^ 16) where
  spells : Spells port 5 [] (to_text port)
  spells = to_text-Spells 5 port (omega arith) (omega arith) (omega arith)

  url-match : regex_match (dotted_text a b c d ++ (b':' ∷ to_text port)) url_regex ≡ true
  unfolding regex_match
  url-match =
      let behind : Regex = both (char b':') (either (char b'*') (digits 5)) in
      let rest : Text → Bool = λ t. matches behind is_empty t in
      let port_matches : matches (digits 5) is_empty (to_text port) ≡ true =
        rw append-nil at
          (to_text-match 5 port is_empty [] (omega arith) (omega arith) (omega arith) refl) in
      let rest_matches : rest (b':' ∷ to_text port) ≡ true =
        rw port_matches (or_true (matches (char b'*') is_empty (to_text port))) in
      rw (dotted-match a b c d rest (b':' ∷ to_text port) ha hb hc hd rest_matches)
        (or_true (matches (char b'*') rest (dotted_text a b c d ++ (b':' ∷ to_text port))))

  url-split :
      split b':' (dotted_text a b c d ++ (b':' ∷ to_text port))
      ≡ dotted_text a b c d ∷ to_text port ∷ []
  unfolding split
  url-split =
      let word : IsWord (to_text port) =
        to_text-IsWord 5 port (omega arith) (omega arith) (omega arith) in
      let some_port : is_empty (to_text port) ≡ false =
        rw (spells.same ∙ append-nil (spells.first ∷ spells.more)) refl in
      let last : split_from b':' [] (to_text port) ≡ to_text port ∷ [] =
        rw append-nil at (split_from-word [] (to_text port) [] word) ∙ rw some_port refl in
      split_from-word [] (dotted_text a b c d) (b':' ∷ to_text port)
        (dotted_text-IsWord a b c d ha hb hc hd)
      ∙ ap (◌∷◌ (dotted_text a b c d)) last

  url-atoi : atoi_from 0 (to_text port) ≡ port
  url-atoi =
      rw (spells.same ∙ append-nil (spells.first ∷ spells.more))
        (atoi_from-value 0 (spells.first ∷ spells.more) spells.all_digits ∙ spells.number)

  -- The text of an IPv4 address and a port matches the regular expression, and is taken apart into
  -- the two again.
  pub url_parts-dotted_text :
      url_parts (dotted_text a b c d ++ (b':' ∷ to_text port)) ≡ ok (dotted_text a b c d, port)
  unfolding url_parts
  url_parts-dotted_text =
      let small : port % 2 ^ 16 ≡ port = omega arith in
      rw (url_parts, url-match, url-split, url-atoi, small) refl

-- Where the socket library reads back the text of an IPv4 address: the URL that a server tells with
-- GetInfo matches the regular expression, and Register and StartRegistration take the server's own
-- address and port from it.
pub client_endpoint-get_info :
    {A : Type 0} (from_string : Text → Option A) (any_address : A) (address_text : A → Text)
    (address : A) (a b c d port : ℕ)
    → address_text address ≡ dotted_text a b c d
    → from_string (dotted_text a b c d) ≡ some address
    → a < 256
    → b < 256
    → c < 256
    → d < 256
    → port < 2 ^ 16
    → (client_endpoint from_string any_address (get_info address_text (address, port))
        ≡ ok (address, port))
      × (server_endpoint from_string any_address (get_info address_text (address, port))
          ≡ ok (address, port))
unfolding client_endpoint server_endpoint get_info
client_endpoint-get_info from_string any_address address_text address a b c d port text read ha hb
      hc hd hp =
    let parts = url_parts-dotted_text a b c d port ha hb hc hd hp in
    (rw (text, parts, read) refl, rw (text, parts, read) refl)
