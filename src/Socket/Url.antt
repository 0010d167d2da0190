-- ===== src/Socket/Url.antt =====
-- data/utils.h (Split), and what data/dataset_socket_server.cpp and data/dataset_socket_client.cpp make
-- of a URL: the regular expression that it is to match, its two parts and the port.
pub mod Digits
pub mod Endpoint
use compute_web_app.Prelude.{
  ℕ, zero, suc, ◌+◌, ◌-◌, ◌*◌, ◌%◌, ◌^◌, List, [], ◌∷◌, ◌++◌, Option, none, some, Bool, true, false,
  not, ◌&&◌, ◌||◌, leb, is_empty, get_elem?, ◌==◌, if◌then◌else◌,
}
use compute_web_app.Prelude.Text.{Text, codes, to_text}
use compute_web_app.Outcome.{Outcome, ok, raise, fault, plain, socket_error, ◌>>=◌}

-- Split<delimiter>: getline up to the delimiter or to the end, as long as there is something to read.
-- `word` is what was read of the word so far.
pub split_from : ℕ → Text → Text → List Text
split_from delimiter word [] = if is_empty word then [] else word ∷ []
split_from delimiter word (c ∷ cs) =
    let next = split_from delimiter [] cs in
    let on = split_from delimiter (word ++ c ∷ []) cs in if c == delimiter then word ∷ next else on

unfoldable pub split : ℕ → Text → List Text
unfolding split_from
split delimiter text = split_from delimiter [] text

abbrev pub is_digit : ℕ → Bool
is_digit c = leb b'0' c && leb c b'9'

-- The regular expressions that are used: a character, a digit one to n times, one behind another, and
-- one or another.
pub data Regex : Type 0 where
  char : ℕ → Regex
  digits : ℕ → Regex
  both either : Regex → Regex → Regex

-- Up to n digits more, and then what `rest` accepts.
pub more_digits : ℕ → (Text → Bool) → Text → Bool
more_digits n rest [] = rest []
more_digits zero rest (c ∷ cs) = rest (c ∷ cs)
more_digits (suc n) rest (c ∷ cs) =
    let on = more_digits n rest cs in rest (c ∷ cs) || (is_digit c && on)

-- A text that begins with a match, and goes on with a text that `rest` accepts.
unfoldable pub matches : Regex → (Text → Bool) → Text → Bool
unfolding more_digits
matches (char a) rest [] = false
matches (char a) rest (c ∷ cs) = c == a && rest cs
matches (digits n) rest [] = false
matches (digits n) rest (c ∷ cs) = is_digit c && more_digits (n - 1) rest cs
matches (both r s) rest text = matches r (λ t. matches s rest t) text
matches (either r s) rest text = matches r rest text || matches s rest text

-- (\*|\d{1,3}\.\d{1,3}\.\d{1,3}\.\d{1,3}):(\*|\d{1,5})
abbrev pub dotted : Regex
dotted = both (digits 3) (
    both (char b'.')
      (both (digits 3) (both (char b'.') (both (digits 3) (both (char b'.') (digits 3))))))

abbrev pub url_regex : Regex
url_regex = both (either (char b'*') dotted) (both (char b':') (either (char b'*') (digits 5)))

-- std::regex_match: the whole text.
unfoldable pub regex_match : Text → Regex → Bool
unfolding matches
regex_match text regex = matches regex is_empty text

-- std::atoi, which stops at the first character that is no digit.
pub atoi_from : ℕ → Text → ℕ
atoi_from n [] = n
atoi_from n (c ∷ cs) = let on = atoi_from (n * 10 + (c - b'0')) cs in if is_digit c then on else n

-- Split<':'>(url)[0], and the number of Split<':'>(url)[1] as a `uint16_t`.
parts_of : Option Text → Option Text → Outcome (Text × ℕ)
parts_of (some host) (some port) = ok (host, atoi_from 0 port % 2 ^ 16)
parts_of (some host) none = fault
parts_of none port = fault

unfoldable pub url_parts : Text → Outcome (Text × ℕ)
unfolding split regex_match atoi_from parts_of
url_parts url =
    if not (regex_match url url_regex)
    then raise plain
    else (let words = split b':' url in parts_of (get_elem? words 0) (get_elem? words 1))

-- GetInfo of a bound endpoint.
unfoldable pub get_info : {A : Type 0} → (A → Text) → A × ℕ → Text
get_info address_text (address, port) = address_text address ++ (codes ":" ++ to_text port)

module _ {A : Type 0} (from_string : Text → Option A) (any_address : A) where
  bind_address : Option A → A
  bind_address none = any_address
  bind_address (some address) = address

  -- StartRegistration: a host that is no address is taken for every address of the machine.
  unfoldable pub server_endpoint : Text → Outcome (A × ℕ)
  unfolding url_parts bind_address
  server_endpoint url = do (host, port) ← url_parts url; ok (bind_address (from_string host), port)

  connect_address : ℕ → Option A → Outcome (A × ℕ)
  connect_address port none = raise socket_error
  connect_address port (some address) = ok (address, port)

  -- Register has no such case.
  unfoldable pub client_endpoint : Text → Outcome (A × ℕ)
  unfolding url_parts connect_address
  client_endpoint url = do (host, port) ← url_parts url; connect_address port (from_string host)
