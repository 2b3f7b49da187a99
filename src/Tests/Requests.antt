-- ===== src/Tests/Requests.antt =====
-- The admission server at concrete requests.
use chur.Base.{true, none, some, [], ◌≡◌, refl}
use chur.Text.{Text, bytes}
use chur.Webhook.Config.{default_config}
use chur.Webhook.Server.Serving.{IsAnswered, serve_http-IsAnswered}
use chur.Webhook.Server.{
  HttpState, answered, serve_http, Request, Kind, Log, Codecs, is_pod_request, mutate,
}
use chur.Webhook.Server.Review.{
  IsConsistent, uid_of, mutate-IsConsistent, IsPatchedBy, mutate-patch,
}
use chur.Tests.Webhook.{web, decode_env, web_patched}

abbrev codecs : Codecs
codecs = record {
  decode_pod = λ object. some web;
  marshal_patch = λ ops. some (bytes "[]");
  unmarshal_env = decode_env;
}

abbrev request : Request
request = record {
  uid = bytes "u-1";
  kind = record { group = []; version = bytes "v1"; kind = bytes "Pod" };
  object = bytes "{}";
  dry_run = none;
}

abbrev no_log : Log
no_log = record { metrics = []; audit = [] }

mutate-IsConsistent_example :
    IsConsistent (mutate codecs default_config (some request) no_log).0
    × ((mutate codecs default_config (some request) no_log).0.uid ≡ uid_of (some request))
mutate-IsConsistent_example = mutate-IsConsistent codecs default_config (some request) no_log

is_for_pod : is_pod_request request.kind ≡ true
unfolding is_pod_request chur.Text.text_eq
is_for_pod = refl

request_patched : (mutate codecs default_config (some request) no_log).0.patch ≡ some (bytes "[]")
unfolding mutate chur.Webhook.Server.is_dry_run chur.Webhook.Server.allowed_with
request_patched = rw (is_for_pod, web_patched) refl

mutate-patch_example : IsPatchedBy codecs default_config request (bytes "[]")
mutate-patch_example =
    mutate-patch codecs default_config request no_log (bytes "[]") request_patched

abbrev state : HttpState
state = record { taken = 3; in_flight = 3; log = no_log }

request_answered :
    (serve_http codecs default_config true state (bytes "POST") (some (some request))).0
    ≡ answered (mutate codecs default_config (some request) no_log).0
unfolding serve_http chur.Text.text_eq
request_answered = refl

serve_http-IsAnswered_example :
    IsAnswered codecs default_config state true
      (bytes "POST")
      (some (some request))
      (mutate codecs default_config (some request) no_log).0
serve_http-IsAnswered_example =
    serve_http-IsAnswered codecs default_config true state (bytes "POST") (some (some request))
      (mutate codecs default_config (some request) no_log).0 request_answered
