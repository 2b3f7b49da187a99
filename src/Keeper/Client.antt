-- ===== src/Keeper/Client.antt =====
-- The keeper's handler as the server of an HTTP client: the response that a client gets for a
-- reply (internal/keeper/server.go). The path of a URL and the JSON of an error are parameters.
pub mod RoundTrip
use chur.Base.{ℕ, Bool, Option, none, Result, ok}
use chur.Base.Int.{ℤ}
use chur.Text.{Text}
use chur.Http.{HttpCall, HttpResponse, Http}
use chur.Keeper.Handler.{HttpRequest, Reply, failure, secret, Shared, handle_get_secret}

unfoldable pub request_of : (Text → Text) → HttpCall → HttpRequest
request_of path_of c = record { method = c.method; path = path_of c.url; body = c.body }

module _ {E : Type 0} where
  -- What writeError and the end of the handler write.
  unfoldable pub response_of : (Text → Text) → Reply → HttpResponse E
  response_of encode_error (failure code msg) = record {
    status = code;
    body = record { content = encode_error msg; failure = none };
  }
  response_of encode_error (secret content) = record {
    status = 200;
    body = record { content = content; failure = none };
  }

  -- Every request is delivered, and its response comes back whole.
  unfoldable pub keeper_http :
      (Text → Text)
      → (Text → Text)
      → (Text → Option Text)
      → (Text → Result E Text)
      → ℤ
      → Bool
      → Shared
      → Http E
  unfolding response_of request_of
  keeper_http path_of encode_error decode backend max_size got_slot s = record {
    refusal = λ c. none;
    send = λ c. ok (
        response_of encode_error
          (handle_get_secret decode backend max_size got_slot s (request_of path_of c)).0);
  }
