-- ===== src/Net/Tcp/Options.antt =====
-- ts/net/tcp.ts: the options flattened for the native engine, and the choice of the engine. The UTF-8
-- encoder is a parameter; `none` is an exception.
pub mod Alpn
use toki.Base.{
  ℕ, Bool, true, false, not, ◌||◌, Option, none, some, List, [], ◌∷◌, ◌++◌, map, String, length,
  ltb, ◌==◌, if◌then◌else◌,
}
use toki.Net.Cipher.{Bytes}

-- what `selectBackend` warns of
pub data Warning : Type 0 where
  not_linux has_tls unavailable : Warning

-- `selectBackend`: whether it is the io_uring engine, and the warning; the arguments are the option,
-- the platform, whether there is a `tls` option, and what the engine says of itself
unfoldable pub select_backend : Bool → Bool → Bool → Bool → Bool × Option Warning
select_backend wanted linux tls available =
    if not wanted
    then (false, none)
    else if not linux
    then (false, some not_linux)
    else if tls
    then (false, some has_tls)
    else if not available
    then (false, some unavailable)
    else (true, none)

-- PEM text or bytes
pub data Pem : Type 0 where
  text : String → Pem
  bytes : Bytes → Pem

pub record Sni : Type 0 where
  pub servername : String
  pub cert : Pem
  pub key : Pem

pub record ServerTls : Type 0 where
  pub cert : Pem
  pub key : Pem
  pub request_cert : Bool
  pub reject_unauthorized : Bool
  pub ca : Option Pem
  pub alpn : Option (List String)
  pub sni : Option (List Sni)

pub record NativeSni : Type 0 where
  pub servername : String
  pub cert : Bytes
  pub key : Bytes

-- The options of the native engine that the two functions below set.
pub record TcpOptions : Type 0 where
  pub no_delay : Option Bool
  pub keep_alive : Option Bool
  pub keep_alive_delay_secs : Option ℕ
  pub timeout_ms : Option ℕ
  pub tls_client : Bool
  pub tls_server_name : Option String
  pub tls_ca : Option Bytes
  pub tls_cert : Option Bytes
  pub tls_key : Option Bytes
  pub tls_alpn : Option Bytes
  pub tls_sni : Option (List NativeSni)
  pub tls_client_ca : Option Bytes
  pub tls_require_client : Bool
  pub tls_insecure : Bool

abbrev pub no_options : TcpOptions
no_options = record {
  no_delay = none;
  keep_alive = none;
  keep_alive_delay_secs = none;
  timeout_ms = none;
  tls_client = false;
  tls_server_name = none;
  tls_ca = none;
  tls_cert = none;
  tls_key = none;
  tls_alpn = none;
  tls_sni = none;
  tls_client_ca = none;
  tls_require_client = false;
  tls_insecure = false;
}

-- The `tls` option of a connect.
pub record ClientTls : Type 0 where
  pub servername : Option String
  pub ca : Option Pem
  pub cert : Option Pem
  pub key : Option Pem
  pub reject_unauthorized : Option Bool
  pub alpn : Option (List String)

pub record ConnectOptions : Type 0 where
  pub no_delay : Option Bool
  pub keep_alive : Option Bool
  pub keep_alive_delay_secs : Option ℕ
  pub timeout_ms : Option ℕ
  pub tls : Option ClientTls

module _ (utf8 : String → Bytes) where
  -- `toPem`
  unfoldable pub to_pem : Pem → Bytes
  to_pem (text s) = utf8 s
  to_pem (bytes b) = b

  unfoldable pub to_pem? : Option Pem → Option Bytes
  to_pem? none = none
  to_pem? (some p) = some (to_pem p)

  -- one turn of the loop of `encodeAlpn`, before what the later turns give
  unfoldable pub alpn_part : Bytes → Option Bytes → Option Bytes
  alpn_part b none = none
  alpn_part b (some rest) =
      if length b == 0 || ltb 255 (length b) then none else some (length b ∷ (b ++ rest))

  -- `encodeAlpn`
  unfoldable pub encode_alpn : List String → Option Bytes
  encode_alpn [] = some []
  encode_alpn (p ∷ ps) = alpn_part (utf8 p) (encode_alpn ps)

  -- `if (tls.alpn !== undefined) o.tlsAlpn = encodeAlpn(tls.alpn)`
  unfoldable pub set_alpn : Option (List String) → TcpOptions → Option TcpOptions
  set_alpn none o = some o
  set_alpn (some protocols) o = elim (encode_alpn protocols) [
    | none ↦ none
    | some wire ↦ some (record o { tls_alpn = some wire })
  ]

  unfoldable pub flatten_sni : Sni → NativeSni
  flatten_sni s = record { servername = s.servername; cert = to_pem s.cert; key = to_pem s.key }

  unfoldable pub set_sni : Option (List Sni) → TcpOptions → TcpOptions
  set_sni none o = o
  set_sni (some names) o = record o { tls_sni = some (map flatten_sni names) }

  -- the branch of `tls.requestCert`
  unfoldable pub set_client_ca : Option Pem → Bool → TcpOptions → Option TcpOptions
  set_client_ca none reject o = none
  set_client_ca (some ca) reject o =
      some (record o { tls_client_ca = some (to_pem ca); tls_require_client = reject })

  -- `flattenServerTls`
  unfoldable pub flatten_server_tls : ServerTls → Option TcpOptions
  flatten_server_tls tls =
      let o = record no_options {
        tls_cert = some (to_pem tls.cert);
        tls_key = some (to_pem tls.key);
      } in
      elim (set_alpn tls.alpn o) [
        | none ↦ none
        | some o' ↦
            let o'' = set_sni tls.sni o' in
            if tls.request_cert then set_client_ca tls.ca tls.reject_unauthorized o'' else some o''
      ]

  unfoldable pub is_refused : Option Bool → Bool
  is_refused none = false
  is_refused (some accept) = not accept

  -- the `tls` part of `flattenConnect`; `true` is a `ClientTls` with nothing set
  unfoldable pub set_client_tls : Option ClientTls → TcpOptions → Option TcpOptions
  set_client_tls none o = some o
  set_client_tls (some t) o = set_alpn t.alpn (record o {
    tls_client = true;
    tls_server_name = t.servername;
    tls_ca = to_pem? t.ca;
    tls_cert = to_pem? t.cert;
    tls_key = to_pem? t.key;
    tls_insecure = is_refused t.reject_unauthorized;
  })

  -- `flattenConnect`
  unfoldable pub flatten_connect : ConnectOptions → Option TcpOptions
  flatten_connect options = set_client_tls options.tls (record no_options {
    no_delay = options.no_delay;
    keep_alive = options.keep_alive;
    keep_alive_delay_secs = options.keep_alive_delay_secs;
    timeout_ms = options.timeout_ms;
  })
