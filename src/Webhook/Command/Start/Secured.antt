-- ===== src/Webhook/Command/Start/Secured.antt =====
-- With what the webhook serves, and what its command leaves on disk.
use chur.Base.{
  Bool-cases, Option, none, some, [], Result, ok, err, ◌≡◌, ◌≢◌, ◌⊎◌, inl, inr, refl, sym, arith,
}
use mathlib.Core.Option.{some_inj}
use chur.Text.{Text, bytes, is_empty, text_eq}
use chur.Text.Laws.{text_eq_iff}
use chur.Tls.{TlsConfig, TlsError, Crypto, version_tls13, webhook_tls_config}
use chur.Tls.Secure.{AsksClients, AsksNone, webhook_tls_config-IsSecure}
use chur.Tls.SelfSigned.{CertLib, TempFiles, CertPaths, Traced}
use chur.Webhook.Config.{Config}
use chur.Webhook.Command.{CommandError, command_config}
use chur.Webhook.Command.Start.{
  Node, Exit, exit_code, tls_mode_of, serve_generated, serve_with, tls_then, client_ca_of, ca_then,
  mode_then, listen_then, config_then, run, getenv,
}
use chur.Webhook.Command.Start

exit_code-zero : {E : Type 0} (o : Option E) → exit_code o ≡ 0 → o ≡ none
unfolding exit_code
exit_code-zero none h = refl
exit_code-zero (some e) h = absurd (omega (arith, h))

tls_mode_of-cases :
    (v : Text) {mode : Text}
    → tls_mode_of v ≡ some mode
    → ((v ≡ bytes "mtls") × (mode ≡ bytes "mtls")) ⊎ ((v ≢ bytes "mtls") × (mode ≡ bytes "server"))
unfolding tls_mode_of
tls_mode_of-cases v h = elim (Bool-cases (text_eq v (bytes "mtls"))) [
  | inl m ↦ inl ((text_eq_iff v (bytes "mtls")).0 m, sym (some_inj.0 (rw m at h)))
  | inr m ↦ inr (
    (λ e. cc (m, (text_eq_iff v (bytes "mtls")).1 e)),
    elim (Bool-cases (text_eq v (bytes "server"))) [
      | inl s ↦ sym (some_inj.0 (rw (m, s) at h))
      | inr s ↦ elim (Bool-cases (is_empty v)) [
        | inl e ↦ sym (some_inj.0 (rw (m, s, e) at h))
        | inr e ↦ absurd (cc (rw (m, s, e) at h))
      ]
    ],
  )
]

which_clients :
    {v mode : Text} {A B : Type 0} {Q : Type 0}
    → ((v ≡ bytes "mtls") × (mode ≡ bytes "mtls")) ⊎ ((v ≢ bytes "mtls") × (mode ≡ bytes "server"))
    → ((mode ≡ bytes "mtls") × Q × A) ⊎ ((mode ≡ bytes "server") × B)
    → ((v ≡ bytes "mtls") × Q × A) ⊎ ((v ≢ bytes "mtls") × B)
which_clients (inl (a, b)) (inl (c, q, d)) = inl (a, q, d)
which_clients (inl (a, b)) (inr (c, d)) = absurd (cc)
which_clients (inr (a, b)) (inl (c, q, d)) = absurd (cc)
which_clients (inr (a, b)) (inr (c, d)) = inr (a, d)

module _ {E C P K : Type 0} (crypto : Crypto E C P) (lib : CertLib E K) (files : TempFiles E)
    (node : Node E C P) where
  -- The servers ran with this configuration and returned no error.
  pub record IsSecured (cfg : Config) : Type 0 where
    pub tls : TlsConfig C P
    pub cert_file : Text
    pub key_file : Text
    pub served : node.serve cfg tls cert_file key_file ≡ none
    pub client_ca : Text
    pub tls13 : tls.min_version ≡ version_tls13
    pub clients :
        ((node.cluster.getenv (bytes "CHUR_TLS_MODE") ≡ bytes "mtls")
          × (client_ca ≢ [])
          × AsksClients crypto client_ca tls)
        ⊎ ((node.cluster.getenv (bytes "CHUR_TLS_MODE") ≢ bytes "mtls") × AsksNone crypto tls)

  HasServed : Config → TlsConfig C P → Type 0
  HasServed cfg c =
      (cert_file : Text) × (key_file : Text) × (node.serve cfg c cert_file key_file ≡ none)

  serve_generated-zero :
      (cfg : Config) (c : TlsConfig C P) (t : Traced E CertPaths)
      → (serve_generated crypto lib files node cfg c t).0 ≡ 0
      → HasServed cfg c
  unfolding serve_generated HasServed
  serve_generated-zero cfg c (err e, ops) h = absurd (omega (arith, h))
  serve_generated-zero cfg c (ok p, ops) h = (p.cert_file, p.key_file, exit_code-zero _ h)

  serve_with-zero :
      (cfg : Config) (c : TlsConfig C P) (cert_file key_file : Text)
      → (serve_with crypto lib files node cfg c cert_file key_file).0 ≡ 0
      → HasServed cfg c
  unfolding serve_with Start.failed HasServed
  serve_with-zero cfg c cert_file key_file h = elim (Bool-cases (node.not_exist cert_file)) [
    | inr n ↦ (cert_file, key_file, exit_code-zero _ (rw n at h))
    | inl n ↦
        elim (Bool-cases
          (text_eq (node.cluster.getenv (bytes "CHUR_TLS_AUTO_GENERATE")) (bytes "1"))) [
            | inl g ↦ serve_generated-zero cfg c _ (rw (n, g) at h)
            | inr g ↦ absurd (omega (arith, rw (n, g) at h))
          ]
  ]

  tls_then-zero :
      (cfg : Config) (r : Result (TlsError E) (TlsConfig C P))
      → (tls_then crypto lib files node cfg r).0 ≡ 0
      → (c : TlsConfig C P) × (r ≡ ok c) × HasServed cfg c
  unfolding tls_then Start.failed
  tls_then-zero cfg (err e) h = absurd (omega (arith, h))
  tls_then-zero cfg (ok c) h = (c, refl, serve_with-zero cfg c _ _ h)

  ca_then-zero :
      (cfg : Config) (mode : Text) (r : Result E Text)
      → (ca_then crypto lib files node cfg mode r).0 ≡ 0
      → (pem : Text) × (c : TlsConfig C P) × (webhook_tls_config crypto mode pem ≡ ok c)
        × HasServed cfg c
  unfolding ca_then Start.failed
  ca_then-zero cfg mode (err e) h = absurd (omega (arith, h))
  ca_then-zero cfg mode (ok pem) h = let (c, q, v) = tls_then-zero cfg _ h in (pem, c, q, v)

  in_mode :
      (cfg : Config) (mode pem : Text) (c : TlsConfig C P)
      → ((node.cluster.getenv (bytes "CHUR_TLS_MODE") ≡ bytes "mtls") × (mode ≡ bytes "mtls"))
        ⊎ ((node.cluster.getenv (bytes "CHUR_TLS_MODE") ≢ bytes "mtls") × (mode ≡ bytes "server"))
      → webhook_tls_config crypto mode pem ≡ ok c
      → HasServed cfg c
      → IsSecured cfg
  unfolding HasServed
  in_mode cfg mode pem c m w (cert_file, key_file, v) =
      let (t, k) = webhook_tls_config-IsSecure crypto mode pem w in
      record {
        tls = c;
        cert_file = cert_file;
        key_file = key_file;
        served = v;
        client_ca = pem;
        tls13 = t;
        clients = which_clients m k;
      }

  mode_then-IsSecured :
      (cfg : Config) (o : Option Text)
      → tls_mode_of (node.cluster.getenv (bytes "CHUR_TLS_MODE")) ≡ o
      → (mode_then crypto lib files node cfg o).0 ≡ 0
      → IsSecured cfg
  unfolding mode_then Start.failed
  mode_then-IsSecured cfg none q h = absurd (omega (arith, h))
  mode_then-IsSecured cfg (some mode) q h =
      let (pem, c, w, v) = ca_then-zero cfg mode _ h in
      in_mode cfg mode pem c (tls_mode_of-cases _ q) w v

  listen_then-IsSecured :
      (cfg : Config) (o p : Option E)
      → (listen_then crypto lib files node cfg o p).0 ≡ 0
      → IsSecured cfg
  unfolding listen_then Start.failed
  listen_then-IsSecured cfg (some e) p h = absurd (omega (arith, h))
  listen_then-IsSecured cfg none (some e) h = absurd (omega (arith, h))
  listen_then-IsSecured cfg none none h = mode_then-IsSecured cfg _ refl h

  config_then-IsSecured :
      (r : Result CommandError Config)
      → (config_then crypto lib files node r).0 ≡ 0
      → (cfg : Config) × (r ≡ ok cfg) × IsSecured cfg
  unfolding config_then Start.failed
  config_then-IsSecured (err e) h = absurd (omega (arith, h))
  config_then-IsSecured (ok cfg) h = (cfg, refl, listen_then-IsSecured cfg _ _ h)

  -- The webhook's command exits with 0 only if the environment gave a configuration and the servers
  -- ran with it and a TLS configuration for 1.3 and above, in which clients must show a certificate
  -- of a CA that is not empty where CHUR_TLS_MODE is mtls, and need none otherwise.
  pub run-IsSecured :
      (run crypto lib files node).0 ≡ 0
      → (cfg : Config) × (command_config node.cluster ≡ ok cfg) × IsSecured cfg
  unfolding run
  run-IsSecured h = config_then-IsSecured (command_config node.cluster) h
