-- ===== src/Http.antt =====
-- What the program uses of Go's HTTP client: a request, a response and the two calls, which are
-- parameters. The body of a response is a reader.
pub mod Body
use chur.Base.{ℕ, Option, none, some, List, Result, ok, err, check, map_err, ◌>>=◌, ◌>>◌}
use chur.Base.Int.{ℤ, succ_int64}
use chur.Text.{Text}
use chur.Io.{Stream, read_limited}
use chur.ReadUtil.{ReadError, check_read}

pub record HttpCall : Type 0 where
  pub method : Text
  pub url : Text
  pub headers : List (Text × Text)
  pub body : Text

pub record HttpResponse (E : Type 0) : Type 0 where
  pub status : ℕ
  pub body : Stream E

-- http.NewRequestWithContext, which may refuse the request, and the client's Do.
pub record Http (E : Type 0) : Type 0 where
  pub refusal : HttpCall → Option E
  pub send : HttpCall → Result E (HttpResponse E)

-- Why a client has no secret.
pub data ClientError (E : Type 0) : Type 0 where
  not_created not_sent : E → ClientError E
  bad_status : ℕ → ClientError E
  unread : ReadError E → ClientError E

module _ {E : Type 0} where
  -- The checks of a client on a body: `io.ReadAll(io.LimitReader(body, max+1))`, its error, and
  -- its length.
  unfoldable pub read_body : ℤ → Stream E → Result (ReadError E) Text
  read_body max_size s = check_read max_size (read_limited (succ_int64 max_size) s)

  abbrev pub refused : Option E → Option (ClientError E)
  refused none = none
  refused (some e) = some (not_created e)

  -- A request that was created and sent.
  unfoldable pub call : Http E → HttpCall → Result (ClientError E) (HttpResponse E)
  call http c = check (refused (http.refusal c)) >> map_err not_sent (http.send c)
