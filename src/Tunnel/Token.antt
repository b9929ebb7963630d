-- ===== src/Tunnel/Token.antt =====
-- The access token in the URL of lib/aws-iot-tunnel.ts: what a server that decodes the query gets.
use mathlib.Core.Option
use sshclient_sftp_wasm.Base.{
  ℕ, ◌+◌, ◌-◌, ◌*◌, ◌/◌, ◌%◌, ◌<◌, ◌≡◌, ◌≢◌, ◌⊎◌, refl, sym, ap, subst, ◌∙◌, true, ◌&&◌, ◌||◌,
  Option, none, some, List, [], ◌∷◌, ◌++◌, concat, map, All, ltb, ◌==◌, if◌then◌else◌, arith, Bytes,
  Text, inl, inr, append-nil, Bool-cases,
}
use sshclient_sftp_wasm.Tunnel.State.{SecureTunnelConfig}
use sshclient_sftp_wasm.Tunnel.Url.{
  is_unescaped, hex_digit, percent, utf8, is_high, is_low, code_point, escape, encode_unit,
  encode_uri_component, url_front, token_url, build_websocket_url,
}

-- The UTF-8 form of a text of UTF-16 code units; a surrogate without its partner has none.
unfoldable pub utf8_text : Text → Option Bytes
utf8_text [] = some []
utf8_text (c ∷ []) = if is_high c || is_low c then none else some (utf8 c)
utf8_text (c ∷ d ∷ s) =
    let rest = utf8_text (d ∷ s) in
    let pair = utf8_text s in
    if is_high c && is_low d
    then Option.map (λ t. utf8 (code_point c d) ++ t) pair
    else if is_high c || is_low c
    then none
    else Option.map (λ t. utf8 c ++ t) rest

unfoldable pub unhex : ℕ → ℕ
unhex h = if ltb h 58 then h - 48 else h - 55

-- Percent-decoding: `%` and two hexadecimal digits stand for a byte.
unfoldable pub unpercent : Text → Bytes
unpercent [] = []
unpercent (c ∷ []) = c ∷ []
unpercent (c ∷ a ∷ []) = c ∷ a ∷ []
unpercent (c ∷ a ∷ b ∷ s) =
    let decoded = unpercent s in
    let plain = unpercent (a ∷ b ∷ s) in
    if c == b'%' then (unhex a * 16 + unhex b) ∷ decoded else c ∷ plain

-- A character that neither ends the value of a query parameter nor is blank or outside ASCII.
abbrev pub IsQueryChar : ℕ → Type 0
IsQueryChar c = (b' ' < c) × (c < 127) × (c ≢ b'&') × (c ≢ b'=') × (c ≢ b'#') × (c ≢ b'+')

abbrev IsByte : ℕ → Type 0
IsByte b = b < 256

abbrev pub IsUnit : ℕ → Type 0
IsUnit c = c < 65536

All-append : {A : Type 0} (P : A → Type 0) (xs ys : List A) → All P xs → All P ys → All P (xs ++ ys)
All-append P [] ys h k = k
All-append P (x ∷ xs) ys h k = (h.0, All-append P xs ys h.1 k)

hex_digit-IsQueryChar : (d : ℕ) → d < 16 → IsQueryChar (hex_digit d)
unfolding hex_digit
hex_digit-IsQueryChar d h = ground arith

unhex-hex_digit : (d : ℕ) → d < 16 → unhex (hex_digit d) ≡ d
unfolding unhex hex_digit
unhex-hex_digit d h = ground arith

unescaped-IsQueryChar : (c : ℕ) → is_unescaped c ≡ true → IsQueryChar c × (c ≢ b'%')
unfolding is_unescaped
unescaped-IsQueryChar c h = ground arith

utf8-IsByte : (c : ℕ) → c < 0x11_0000 → All IsByte (utf8 c)
unfolding utf8
utf8-IsByte c h = ground arith

escape-IsQueryChar : (bs : Bytes) → All IsByte bs → All IsQueryChar (concat (map percent bs))
escape-IsQueryChar [] h = tt
escape-IsQueryChar (b ∷ bs) h = (
  omega arith,
  (
    hex_digit-IsQueryChar (b / 16) (omega arith),
    (hex_digit-IsQueryChar (b % 16) (omega arith), escape-IsQueryChar bs h.1),
  ),
)

utf8_ascii : (c : ℕ) → c < 128 → utf8 c ≡ c ∷ []
unfolding utf8
utf8_ascii c h = ground arith

unpercent-percent : (b : ℕ) (t : Text) → IsByte b → unpercent (percent b ++ t) ≡ b ∷ unpercent t
unfolding unpercent
unpercent-percent b t h =
    ap (λ x. x ∷ unpercent t) (omega (arith, unhex-hex_digit (b / 16), unhex-hex_digit (b % 16)))

unpercent-escape :
    (bs : Bytes) (t : Text)
    → All IsByte bs
    → unpercent (concat (map percent bs) ++ t) ≡ bs ++ unpercent t
unpercent-escape [] t h = refl
unpercent-escape (b ∷ bs) t h =
    unpercent-percent b (concat (map percent bs) ++ t) h.0 ∙ ap (◌∷◌ b) (unpercent-escape bs t h.1)

unpercent-plain : (c : ℕ) (t : Text) → c ≢ b'%' → unpercent (c ∷ t) ≡ c ∷ unpercent t
unfolding unpercent
unpercent-plain c [] h = refl
unpercent-plain c (a ∷ []) h = refl
unpercent-plain c (a ∷ b ∷ s) h = ground arith

-- A code unit that is no surrogate.
unpercent-encode_unit :
    (c : ℕ) (t : Text) → IsUnit c → unpercent (encode_unit c ++ t) ≡ utf8 c ++ unpercent t
unfolding encode_unit
unpercent-encode_unit c t h = elim (Bool-cases (is_unescaped c)) [
  | inl u ↦
      let q = unescaped-IsQueryChar c u in
      rw u (
        unpercent-plain c t q.1
        ∙ ap (λ bs. bs ++ unpercent t) (sym (utf8_ascii c (omega (arith, q.0)))))
  | inr e ↦ rw e (unpercent-escape (utf8 c) t (utf8-IsByte c (omega arith)))
]

unpercent-encode_unit_alone : (c : ℕ) → IsUnit c → unpercent (encode_unit c) ≡ utf8 c
unpercent-encode_unit_alone c h =
    ap unpercent (sym (append-nil (encode_unit c)))
    ∙ unpercent-encode_unit c [] h
    ∙ (unfold unpercent in append-nil (utf8 c))

encode_unit-IsQueryChar : (c : ℕ) → IsUnit c → All IsQueryChar (encode_unit c)
unfolding encode_unit
encode_unit-IsQueryChar c h = elim (Bool-cases (is_unescaped c)) [
  | inl u ↦ rw u ((unescaped-IsQueryChar c u).0, tt)
  | inr e ↦ rw e (escape-IsQueryChar (utf8 c) (utf8-IsByte c (omega arith)))
]

-- What an encoding must be for a text whose UTF-8 form is given.
abbrev Encodes : Option Text → Option Bytes → Type 0
Encodes none u = u ≡ none
Encodes (some t) u = (u ≡ some (unpercent t)) × All IsQueryChar t

Encodes-append :
    (front : Text) (bs : Bytes) (o : Option Text) (u : Option Bytes)
    → ((t : Text) → unpercent (front ++ t) ≡ bs ++ unpercent t)
    → All IsQueryChar front
    → Encodes o u
    → Encodes (Option.map (λ t. front ++ t) o) (Option.map (λ t. bs ++ t) u)
Encodes-append front bs none u step safe e = rw e
Encodes-append front bs (some t) u step safe e =
    (rw e.0 (ap some (sym (step t))), All-append IsQueryChar front t safe e.1)

code_point_range :
    (c d : ℕ) → IsUnit c → IsUnit d → (is_high c && is_low d) ≡ true → code_point c d < 0x11_0000
code_point_range c d h k e = ground arith

encode_uri_component-Encodes :
    (t : Text) → All IsUnit t → Encodes (encode_uri_component t) (utf8_text t)
unfolding encode_uri_component utf8_text
encode_uri_component-Encodes [] h = (unfold unpercent in refl, tt)
encode_uri_component-Encodes (c ∷ []) h = elim (Bool-cases (is_high c || is_low c)) [
  | inl lone ↦ rw lone
  | inr plain ↦
      rw plain (ap some (sym (unpercent-encode_unit_alone c h.0)), encode_unit-IsQueryChar c h.0)
]
encode_uri_component-Encodes (c ∷ d ∷ s) h = elim (Bool-cases (is_high c && is_low d)) [
  | inl pair ↦
      let bs = utf8 (code_point c d) in
      let bytes = utf8-IsByte (code_point c d) (code_point_range c d h.0 h.1.0 pair) in
      rw pair (
        Encodes-append (escape (code_point c d)) bs _ _ (λ t. unpercent-escape bs t bytes)
          (escape-IsQueryChar bs bytes) (encode_uri_component-Encodes s h.1.1))
  | inr single ↦ rw single (elim (Bool-cases (is_high c || is_low c)) [
    | inl lone ↦ rw lone
    | inr plain ↦ rw plain (
        Encodes-append (encode_unit c) (utf8 c) _ _ (λ t. unpercent-encode_unit c t h.0)
          (encode_unit-IsQueryChar c h.0) (encode_uri_component-Encodes (d ∷ s) h.1))
  ])
]

-- What the URL is to a server: behind `access-token=` stands a parameter value that decodes to the
-- UTF-8 form of the token. There is no URL exactly for an empty token or one with a lone surrogate.
abbrev pub CarriesToken : SecureTunnelConfig → Option Text → Type 0
CarriesToken c none = (c.access_token ≡ []) ⊎ (utf8_text c.access_token ≡ none)
CarriesToken c (some url) =
    (c.access_token ≢ [])
    × (token : Text) × (url ≡ url_front c ++ token)
    × (utf8_text c.access_token ≡ some (unpercent token))
    × All IsQueryChar token

carries :
    (c : SecureTunnelConfig) (o : Option Text)
    → c.access_token ≢ []
    → Encodes o (utf8_text c.access_token)
    → CarriesToken c (Option.map (λ token. url_front c ++ token) o)
carries c none full e = inr e
carries c (some t) full e = (full, t, refl, e.0, e.1)

token_url-CarriesToken :
    (c : SecureTunnelConfig) (t : Text)
    → c.access_token ≡ t
    → All IsUnit t
    → CarriesToken c (token_url c t)
token_url-CarriesToken c [] e h = inl e
token_url-CarriesToken c (t ∷ s) e h =
    carries c _ (λ empty. cc)
      (subst (λ x. Encodes (encode_uri_component (t ∷ s)) (utf8_text x)) (sym e)
        (encode_uri_component-Encodes (t ∷ s) h))

-- On every token of UTF-16 code units `buildWebSocketUrl` throws if the token is empty or has a lone
-- surrogate, and otherwise gives a URL that ends in the token's encoding: it has no character that
-- would end the parameter, and percent-decoding it gives the token's UTF-8 bytes.
pub build_websocket_url-CarriesToken :
    (c : SecureTunnelConfig) → All IsUnit c.access_token → CarriesToken c (build_websocket_url c)
unfolding build_websocket_url
build_websocket_url-CarriesToken c h = token_url-CarriesToken c c.access_token refl h
