-- ===== src/Online/Endpoint.antt =====
-- Which endpoints and credentials may be used in a request (src/online/EndpointPolicy.cpp).
use msime_linux.Base.{
  ℕ, Bool, true, false, not, ◌&&◌, ◌||◌, [], ◌∷◌, Bytes, length, drop, is_empty, starts_with, codes,
  ltb, leb, ◌==◌,
}

abbrev pub maximum_endpoint_length : ℕ
maximum_endpoint_length = 2048

abbrev pub maximum_token_length : ℕ
maximum_token_length = 4096

unfoldable pub contains_control_character : Bytes → Bool
contains_control_character [] = false
contains_control_character (c ∷ rest) = ltb c 0x20 || c == 0x7f || contains_control_character rest

-- What may follow the host: nothing, a port or a path.
unfoldable pub ends_host : Bytes → Bool
ends_host [] = true
ends_host (c ∷ rest) = c == b':' || c == b'/'

unfoldable pub has_host : Bytes → Bytes → Bool
unfolding ends_host starts_with
has_host endpoint prefix = starts_with endpoint prefix && ends_host (drop (length prefix) endpoint)

unfoldable pub is_loopback_http_endpoint : Bytes → Bool
unfolding has_host
is_loopback_http_endpoint endpoint =
    has_host endpoint (codes "http://127.0.0.1")
    || has_host endpoint (codes "http://localhost")
    || has_host endpoint (codes "http://[::1]")

unfoldable pub token_allowed : Bytes → Bool
unfolding contains_control_character
token_allowed token =
    leb (length token) maximum_token_length && not (contains_control_character token)

unfoldable pub endpoint_allowed : Bytes → Bool → Bool
unfolding contains_control_character is_loopback_http_endpoint
endpoint_allowed endpoint allow_loopback_for_tests =
    not (
      is_empty endpoint
      || ltb maximum_endpoint_length (length endpoint)
      || contains_control_character endpoint)
    && (starts_with endpoint (codes "https://")
        || (allow_loopback_for_tests && is_loopback_http_endpoint endpoint))
