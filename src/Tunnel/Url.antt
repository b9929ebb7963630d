-- ===== src/Tunnel/Url.antt =====
-- `buildWebSocketUrl` of lib/aws-iot-tunnel.ts, and the encodeURIComponent of JavaScript, which it
-- calls: code units that are not unescaped go out as the percent-coded bytes of their UTF-8 form,
-- and a surrogate without its partner throws (`none`).
use mathlib.Core.Option
use sshclient_sftp_wasm.Base.{
  ℕ, ◌+◌, ◌-◌, ◌*◌, ◌/◌, ◌%◌, Bool, ◌&&◌, ◌||◌, Option, none, some, [], ◌∷◌, ◌++◌, concat, map, ltb,
  leb, ◌==◌, if◌then◌else◌, Bytes, Text, codes,
}
use sshclient_sftp_wasm.Tunnel.State.{ClientMode, source, destination, SecureTunnelConfig}
use sshclient_sftp_wasm.Messages.Class.{Protocol, v1, v2, v3}

abbrev between : ℕ → ℕ → ℕ → Bool
between lo hi c = leb lo c && leb c hi

-- A-Z a-z 0-9 - _ . ! ~ * ' ( )
unfoldable pub is_unescaped : ℕ → Bool
is_unescaped c =
    between b'A' b'Z' c
    || between b'a' b'z' c
    || between b'0' b'9' c
    || between 39 42 c
    || between b'-' b'.' c
    || c == b'_'
    || c == b'!'
    || c == b'~'

unfoldable pub hex_digit : ℕ → ℕ
hex_digit d = if ltb d 10 then 48 + d else 55 + d

abbrev pub percent : ℕ → Text
percent b = b'%' ∷ hex_digit (b / 16) ∷ hex_digit (b % 16) ∷ []

unfoldable pub utf8 : ℕ → Bytes
utf8 c =
    if ltb c 0x80
    then c ∷ []
    else if ltb c 0x800
    then (0xc0 + c / 64) ∷ (0x80 + c % 64) ∷ []
    else if ltb c 0x1_0000
    then (0xe0 + c / 4096) ∷ (0x80 + c / 64 % 64) ∷ (0x80 + c % 64) ∷ []
    else (0xf0 + c / 262144) ∷ (0x80 + c / 4096 % 64) ∷ (0x80 + c / 64 % 64) ∷ (0x80 + c % 64) ∷ []

abbrev pub is_high : ℕ → Bool
is_high c = between 0xd800 0xdbff c

abbrev pub is_low : ℕ → Bool
is_low c = between 0xdc00 0xdfff c

abbrev pub code_point : ℕ → ℕ → ℕ
code_point high low = 0x1_0000 + (high - 0xd800) * 1024 + (low - 0xdc00)

abbrev pub escape : ℕ → Text
escape c = concat (map percent (utf8 c))

-- What a code unit that is no surrogate is replaced by.
unfoldable pub encode_unit : ℕ → Text
encode_unit c = if is_unescaped c then c ∷ [] else escape c

unfoldable pub encode_uri_component : Text → Option Text
encode_uri_component [] = some []
encode_uri_component (c ∷ []) = if is_high c || is_low c then none else some (encode_unit c)
encode_uri_component (c ∷ d ∷ s) =
    let rest = encode_uri_component (d ∷ s) in
    let pair = encode_uri_component s in
    if is_high c && is_low d
    then Option.map (λ t. escape (code_point c d) ++ t) pair
    else if is_high c || is_low c
    then none
    else Option.map (λ t. encode_unit c ++ t) rest

abbrev pub mode_name : ClientMode → Text
mode_name source = codes "source"
mode_name destination = codes "destination"

abbrev pub version_number : Protocol → Text
version_number v1 = codes "1"
version_number v2 = codes "2"
version_number v3 = codes "3"

abbrev pub url_front : SecureTunnelConfig → Text
url_front c =
    codes "wss://data.tunneling.iot."
    ++ (c.region
        ++ (codes ".amazonaws.com/tunnel"
            ++ (codes "?local-proxy-mode=" ++ (mode_name c.client_mode ++ codes "&access-token="))))

-- The URL for an access token.
abbrev pub token_url : SecureTunnelConfig → Text → Option Text
token_url c [] = none
token_url c (t ∷ s) = Option.map (λ token. url_front c ++ token) (encode_uri_component (t ∷ s))

-- `none` where the method throws: for an empty token, and where the encoding throws.
unfoldable pub build_websocket_url : SecureTunnelConfig → Option Text
build_websocket_url c = token_url c c.access_token

abbrev pub subprotocol : Protocol → Text
subprotocol p = codes "aws.iot.securetunneling-" ++ (version_number p ++ codes ".0")
