-- ===== src/Tls.antt =====
-- src/tls/acceptor.rs. The files and rustls are an argument.
pub mod Loaded
use multithreaded.Base.{Option, none, some, List, [], ◌∷◌, if◌then◌else◌}
use multithreaded.Base.Text.{Str, bytes, is_empty}
use multithreaded.Base.Results.{Result, ok, err, ◌>>=◌, map_err, collect}

-- `File::open`; what rustls_pemfile reads of a file, the certificates one by one; the default
-- protocol versions, and `with_single_cert`.
pub record TlsLib : Type 1 where
  pub File : Type 0
  pub IoError : Type 0
  pub RustlsError : Type 0
  pub Certificate : Type 0
  pub PrivateKey : Type 0
  pub ServerConfig : Type 0
  pub open_file : Str → Result IoError File
  pub certs : File → List (Result IoError Certificate)
  pub private_key : File → Result IoError (Option PrivateKey)
  pub protocol_versions : Result RustlsError (Unit {0})
  pub with_single_cert : List Certificate → PrivateKey → Result RustlsError ServerConfig

module _ (lib : TlsLib) where
  open lib use {IoError, RustlsError, Certificate, PrivateKey}

  pub data TlsError : Type 0 where
    cert_file_open key_file_open parse_cert parse_key : Str → IoError → TlsError
    no_certs no_private_key : Str → TlsError
    invalid_cert_key : RustlsError → TlsError

  pub record TlsAcceptor : Type 0 where
    pub config : lib.ServerConfig
    pub alpn_protocols : List Str

  unfoldable pub some_certs : Str → List Certificate → Result TlsError (List Certificate)
  some_certs path [] = err (no_certs path)
  some_certs path (cert ∷ certs) = ok (cert ∷ certs)

  unfoldable pub load_certs : Str → Result TlsError (List Certificate)
  unfolding some_certs
  load_certs path = do
    file ← map_err (cert_file_open path) (lib.open_file path)
    certs ← map_err (parse_cert path) (collect (lib.certs file))
    some_certs path certs

  unfoldable pub some_key : Str → Option PrivateKey → Result TlsError PrivateKey
  some_key path none = err (no_private_key path)
  some_key path (some key) = ok key

  unfoldable pub load_private_key : Str → Result TlsError PrivateKey
  unfolding some_key
  load_private_key path = do
    file ← map_err (key_file_open path) (lib.open_file path)
    found ← map_err (parse_key path) (lib.private_key file)
    some_key path found

  unfoldable pub load_tls_acceptor : Str → Str → Result TlsError TlsAcceptor
  unfolding load_certs load_private_key
  load_tls_acceptor cert_path key_path = do
    certs ← load_certs cert_path
    key ← load_private_key key_path
    versions ← map_err invalid_cert_key lib.protocol_versions
    config ← map_err invalid_cert_key (lib.with_single_cert certs key)
    ok (record { config = config; alpn_protocols = bytes "h2" ∷ bytes "http/1.1" ∷ [] })
