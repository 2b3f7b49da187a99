-- ===== src/Webhook/Server/Audit.antt =====
-- What the server records of a review in its audit log.
use chur.Base.{Bool, true, false, Option, none, some, List, [], ◌∷◌, ◌++◌, ◌≡◌}
use chur.Text.{Text, bytes}
use chur.Webhook.Pod.{Pod}
use chur.Webhook.Config.{Config}
use chur.Webhook.Server.{Response, AuditEntry}

-- The result that the audit log names for a response.
abbrev pub result_of : Bool → Option Text → Text
result_of false patch = bytes "error"
result_of true none = bytes "allowed"
result_of true (some p) = bytes "mutated"

-- One entry is appended, that of the response.
pub record IsAudited (before after : List AuditEntry) (r : Response) : Type 0 where
  pub entry : AuditEntry
  pub appended : after ≡ before ++ entry ∷ []
  pub of_request : entry.request_uid ≡ r.uid
  pub with_result : entry.result ≡ result_of r.allowed r.patch
