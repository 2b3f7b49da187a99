-- ===== src/Tests/Keeper.antt =====
-- The keeper at concrete requests.
use chur.Base.{ℕ, true, Option, some, List, [], ◌∷◌, ◌≡◌, refl, ◌≢◌, ◌↔◌, All, Result, ok}
use chur.Base.Int.{pos}
use chur.Text.{Text, bytes}
use chur.Keeper.Handler.{HttpRequest, Shared, secret, handle_get_secret}
use chur.Keeper.Handler.Answers.{IsServed, handle_get_secret_iff}
use chur.Keeper.LimitedWriter.{new, write_all, concat, kept}
use chur.Keeper.LimitedWriter.Kept.{write_all-kept}

abbrev decode : Text → Option Text
decode body = some (bytes "prod/db")

abbrev backend : Text → Result ℕ Text
backend ref = ok (bytes "s3cret")

abbrev shared : Shared
shared = record { taken = 2; in_flight = 2; results = [] }

abbrev post : HttpRequest
post = record {
  method = bytes "POST";
  path = bytes "/v1/secrets/get";
  body = bytes "{\"ref\":\"prod/db\"}";
}

post_answered :
    (handle_get_secret decode backend (pos 100) true shared post).0 ≡ secret (bytes "s3cret")
unfolding handle_get_secret chur.Text.text_eq chur.Validate.validate_keeper_ref chur.Text.has_prefix
    chur.Text.contains chur.Validate.first_invalid chur.Text.Runes.runes
    chur.Validate.is_keeper_rune
post_answered = refl

handle_get_secret_iff_example :
    ((handle_get_secret decode backend (pos 100) true shared post).0 ≡ secret (bytes "s3cret"))
    ↔ IsServed decode backend (pos 100) true post (bytes "s3cret")
handle_get_secret_iff_example =
    handle_get_secret_iff decode backend (pos 100) true shared post (bytes "s3cret")

abbrev two_lines : List Text
two_lines = bytes "error: no such file" ∷ bytes "\n" ∷ []

two_lines_are_not_empty : All (λ p. p ≢ []) two_lines
two_lines_are_not_empty = ((λ h. cc), ((λ h. cc), tt))

write_all-kept_example : (write_all (new 8) two_lines).buf ≡ kept 8 (concat two_lines)
write_all-kept_example = write_all-kept 8 two_lines two_lines_are_not_empty
