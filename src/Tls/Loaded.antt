-- ===== src/Tls/Loaded.antt =====
-- When a TLS acceptor is loaded.
use multithreaded.Base.{◌≡◌, refl, sym, ◌∙◌, ap, ◌↔◌, Option, none, some, List, [], ◌∷◌, map}
use multithreaded.Base.Text.{Str, bytes}
use multithreaded.Base.Results.{
  Result, ok, err, map_err, collect, >>=-eq-ok, ok-injective, map_err-ok,
}
use multithreaded.Tls.{
  TlsLib, cert_file_open, key_file_open, parse_cert, parse_key, invalid_cert_key, TlsAcceptor,
  some_certs, load_certs, some_key, load_private_key, load_tls_acceptor,
}

abbrev oks {ℓ κ} : {E : Type ℓ} {A : Type κ} → List A → List (Result E A)
oks found = map (λ a. ok a) found

collect-ok {ℓ κ} :
    {E : Type ℓ} {A : Type κ} (rs : List (Result E A)) (found : List A)
    → collect rs ≡ ok found
    → rs ≡ oks found
unfolding collect
collect-ok [] found h = ap oks (ok-injective h)
collect-ok (ok a ∷ rs) found h =
    let (rest, e, k) = >>=-eq-ok (collect rs) (λ rest. ok (a ∷ rest)) found h in
    ap (λ l. ok a ∷ l) (collect-ok rs rest e) ∙ ap oks (ok-injective k)
collect-ok (err e ∷ rs) found h = cc

collect-oks {ℓ κ} :
    (E : Type ℓ) {A : Type κ} (found : List A) → collect (oks {E = E} found) ≡ ok found
unfolding collect
collect-oks E [] = refl
collect-oks E (a ∷ found) = rw (collect-oks E found) refl

module _ (lib : TlsLib) where
  -- The certificate file is read whole, with one certificate at least, the key file holds a key,
  -- and rustls accepts them together.
  pub record IsLoaded (cert_path key_path : Str) (acceptor : TlsAcceptor lib) : Type 0 where
    pub cert_file : lib.File
    pub key_file : lib.File
    pub first : lib.Certificate
    pub others : List lib.Certificate
    pub key : lib.PrivateKey
    pub versions : Unit {0}
    pub cert_opened : lib.open_file cert_path ≡ ok cert_file
    pub all_read : lib.certs cert_file ≡ oks (first ∷ others)
    pub key_opened : lib.open_file key_path ≡ ok key_file
    pub key_found : lib.private_key key_file ≡ ok (some key)
    pub supported : lib.protocol_versions ≡ ok versions
    pub accepted : lib.with_single_cert (first ∷ others) key ≡ ok acceptor.config
    pub offered : acceptor.alpn_protocols ≡ bytes "h2" ∷ bytes "http/1.1" ∷ []

  some_certs-ok :
      (path : Str) (certs found : List lib.Certificate)
      → some_certs lib path certs ≡ ok found
      → (first : lib.Certificate) × (others : List lib.Certificate) × (certs ≡ first ∷ others)
        × (found ≡ first ∷ others)
  unfolding some_certs
  some_certs-ok path [] found h = cc
  some_certs-ok path (c ∷ certs) found h = (c, certs, refl, sym (ok-injective h))

  some_key-ok :
      (path : Str) (found : Option lib.PrivateKey) (key : lib.PrivateKey)
      → some_key lib path found ≡ ok key
      → found ≡ some key
  unfolding some_key
  some_key-ok path none key h = cc
  some_key-ok path (some k) key h = ap some (ok-injective h)

  load-IsLoaded :
      (cert_path key_path : Str) (acceptor : TlsAcceptor lib)
      → load_tls_acceptor lib cert_path key_path ≡ ok acceptor
      → IsLoaded cert_path key_path acceptor
  unfolding load_tls_acceptor load_certs load_private_key
  load-IsLoaded cert_path key_path acceptor h =
      let (certs, loaded, h) = >>=-eq-ok (load_certs lib cert_path) _ acceptor h in
      let (key, found, h) = >>=-eq-ok (load_private_key lib key_path) _ acceptor h in
      let (versions, v, h) =
        >>=-eq-ok (map_err (invalid_cert_key) lib.protocol_versions) _ acceptor h in
      let (config, w, h) =
        >>=-eq-ok (map_err (invalid_cert_key) (lib.with_single_cert certs key)) _ acceptor h in
      let (file, o, c) =
        >>=-eq-ok (map_err (cert_file_open cert_path) (lib.open_file cert_path)) _ certs loaded in
      let (read, r, c) =
        >>=-eq-ok (map_err (parse_cert cert_path) (collect (lib.certs file))) _ certs c in
      let (first, others, e, e') = some_certs-ok cert_path read certs c in
      let (key_file, ko, k) =
        >>=-eq-ok (map_err (key_file_open key_path) (lib.open_file key_path)) _ key found in
      let (option, kr, k) =
        >>=-eq-ok (map_err (parse_key key_path) (lib.private_key key_file)) _ key k in
      let made = ok-injective h in
      record {
        cert_file = file;
        key_file = key_file;
        first = first;
        others = others;
        key = key;
        versions = versions;
        cert_opened = map_err-ok _ _ _ o;
        all_read = collect-ok _ _ (map_err-ok _ _ _ r) ∙ ap oks e;
        key_opened = map_err-ok _ _ _ ko;
        key_found = map_err-ok _ _ _ kr ∙ ap ok (some_key-ok key_path option key k);
        supported = map_err-ok _ _ _ v;
        accepted =
            ap (λ l. lib.with_single_cert l key) (sym e')
            ∙ (map_err-ok _ _ _ w ∙ ap (λ a. ok a.config) made);
        offered = ap (λ (a : TlsAcceptor lib). a.alpn_protocols) (sym made);
      }

  IsLoaded-load :
      (cert_path key_path : Str) (acceptor : TlsAcceptor lib)
      → IsLoaded cert_path key_path acceptor
      → load_tls_acceptor lib cert_path key_path ≡ ok acceptor
  unfolding load_tls_acceptor load_certs load_private_key some_certs some_key
  IsLoaded-load cert_path key_path acceptor l =
      let certs : load_certs lib cert_path ≡ ok (l.first ∷ l.others) =
        rw (l.cert_opened, load_certs)
          (rw l.all_read (rw (collect-oks lib.IoError (l.first ∷ l.others)) refl)) in
      let key : load_private_key lib key_path ≡ ok l.key =
        rw (l.key_opened, load_private_key) (rw l.key_found refl) in
      rw (certs, load_tls_acceptor)
        (rw key (
          rw l.supported (
            rw l.accepted (
              ap (λ protocols. ok (record acceptor { alpn_protocols = protocols }))
                (sym l.offered)))))

  -- Loading gives an acceptor exactly when the certificate file opens and every certificate in it
  -- is read and there is at least one, the key file opens and holds a key, and rustls accepts all
  -- these certificates with that key; the acceptor then offers h2 before http/1.1.
  pub load_tls_acceptor_iff :
      (cert_path key_path : Str) (acceptor : TlsAcceptor lib)
      → (load_tls_acceptor lib cert_path key_path ≡ ok acceptor)
        ↔ IsLoaded cert_path key_path acceptor
  load_tls_acceptor_iff cert_path key_path acceptor =
      (load-IsLoaded cert_path key_path acceptor, IsLoaded-load cert_path key_path acceptor)
