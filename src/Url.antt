-- ===== src/Url.antt =====
-- The functions of Go's net and net/url that build an address, on bytes.
pub mod Query
pub mod Unescape
use chur.Base.{ℕ, ◌+◌, ◌-◌, ◌/◌, ◌%◌, Bool, ◌||◌, [], ◌∷◌, ◌++◌, ltb, ◌==◌, within, if◌then◌else◌}
use chur.Text.{Text, bytes, contains_byte, is_empty}

-- net.JoinHostPort(host, port)
unfoldable pub join_host_port : Text → Text → Text
unfolding contains_byte
join_host_port host port =
    if contains_byte host b':' then b'[' ∷ (host ++ (bytes "]:" ++ port)) else host ++ (b':' ∷ port)

-- The letters, digits and marks that no mode escapes.
unfoldable pub is_unreserved : ℕ → Bool
is_unreserved c =
    within b'a' b'z' c
    || within b'A' b'Z' c
    || within b'0' b'9' c
    || c == b'-'
    || c == b'_'
    || c == b'.'
    || c == b'~'

-- A hexadecimal digit in upper case.
unfoldable pub upper_hex : ℕ → ℕ
upper_hex d = if ltb d 10 then b'0' + d else b'A' + (d - 10)

unfoldable pub escape_byte : ℕ → Text
unfolding upper_hex
escape_byte c = b'%' ∷ upper_hex (c / 16) ∷ upper_hex (c % 16) ∷ []

-- The other marks that a host keeps.
host_marks : Text
host_marks = b'"' ∷ bytes "!$&'()*+,;=:[]<>"

-- escape(s, encodeHost)
unfoldable pub escape_host : Text → Text
unfolding is_unreserved escape_byte host_marks contains_byte
escape_host [] = []
escape_host (c ∷ cs) =
    (if is_unreserved c || contains_byte host_marks c then c ∷ [] else escape_byte c)
    ++ escape_host cs

-- url.QueryEscape(s)
unfoldable pub query_escape : Text → Text
unfolding is_unreserved escape_byte
query_escape [] = []
query_escape (c ∷ cs) =
    (if is_unreserved c then c ∷ [] else if c == b' ' then b'+' ∷ [] else escape_byte c)
    ++ query_escape cs

-- (&url.URL{Scheme: scheme, Host: host}).String(), where the scheme is not empty
unfoldable pub url_string : Text → Text → Text
unfolding escape_host
url_string scheme host =
    scheme ++ (b':' ∷ (if is_empty host then [] else bytes "//" ++ escape_host host))
