-- ===== src/Providers/KeeperClient/Secret.antt =====
-- What the keeper provider returns, alone and with a keeper that answers it.
use chur.Base.{ℕ, ◌<◌, Bool-cases, ◌==◌, ==_iff, ◌≡◌, inl, inr, ok, bind-eq-ok, map_err-eq-ok}
use chur.Base.Int.{pos, max_int64}
use chur.Text.{Text}
use chur.ReadUtil.Bounded.{IsContent}
use chur.Http.{HttpCall, HttpResponse, Http, unread, call}
use chur.Http.Body.{read_body-IsContent, call-ok}
use chur.Providers.KeeperClient.{KeeperProvider, secret_call, secret_of, get_keeper_secret}

module _ {E : Type 0} where
  -- The whole body of a response with the status 200.
  pub record IsReceived (http : Http E) (c : HttpCall) (max : ℕ) (content : Text) : Type 0 where
    pub response : HttpResponse E
    pub sent : http.send c ≡ ok response
    pub status_ok : response.status ≡ 200
    pub whole : IsContent max response.body content

  secret_of-ok :
      (max : ℕ) (r : HttpResponse E) {content : Text}
      → max < max_int64
      → secret_of (pos max) r ≡ ok content
      → (r.status ≡ 200) × IsContent max r.body content
  unfolding secret_of
  secret_of-ok max r m h = elim (Bool-cases (r.status == 200)) [
    | inl t ↦ (
      (==_iff r.status 200).0 t,
      read_body-IsContent max r.body m (map_err-eq-ok unread _ (rw t at h)),
    )
    | inr t ↦ absurd (cc (rw t at h))
  ]

  -- If the keeper provider, with a limit below 2^63 - 1, returns a secret, then it has sent the POST
  -- with the encoded ref to its URL and got a response with the status 200, and the secret is the
  -- whole body, read without an error and within the limit.
  pub get_keeper_secret-IsReceived :
      {C P : Type 0} (encode : Text → Text) (http : Http E) (p : KeeperProvider C P) (max : ℕ)
      (ref : Text) {content : Text}
      → p.max_secret_size ≡ pos max
      → max < max_int64
      → get_keeper_secret encode http p ref ≡ ok content
      → IsReceived http (secret_call encode p.url ref) max content
  unfolding get_keeper_secret
  get_keeper_secret-IsReceived encode http p max ref e m h =
      let (r, a, b) = bind-eq-ok (call http (secret_call encode p.url ref)) _ h in
      let (s, w) = secret_of-ok max r m (rw e at b) in
      record { response = r; sent = call-ok http _ a; status_ok = s; whole = w }
