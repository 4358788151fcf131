-- ===== src/Settings/Endpoints.antt =====
-- An endpoint that the store accepts (src/SettingsStore.cpp) may be requested
-- (src/online/EndpointPolicy.cpp).
use msime_linux.Base.{
  Bool, true, false, not, ◌&&◌, ◌||◌, [], ◌∷◌, Bytes, length, is_empty, starts_with, codes, ltb,
  leb, ◌≡◌, refl, sym,
}
use msime_linux.Online.Endpoint.{
  contains_control_character, is_loopback_http_endpoint, endpoint_allowed,
}
use msime_linux.Settings.Valid.{
  Checks, is_forbidden, contains_forbidden, contains_nul, valid_utf8_text, valid_https_endpoint,
}

-- A text without newlines is searched for the same bytes in both files.
contains_forbidden_lem : (v : Bytes) → contains_forbidden false v ≡ contains_control_character v
unfolding contains_forbidden contains_control_character is_forbidden
contains_forbidden_lem [] = refl
contains_forbidden_lem (c ∷ rest) = rw (contains_forbidden_lem rest) refl

-- The conditions of both files as plain Booleans.
accepted-requested :
    (empty short https long nul utf8 bad loopback : Bool)
    → (empty || (short && https && (not (long || nul || not utf8) && not bad))) ≡ true
    → empty ≡ false
    → (not (empty || long || bad) && (https || loopback)) ≡ true
accepted-requested false true true false false true false loopback valid e = refl
accepted-requested true short https long nul utf8 bad loopback valid e = absurd (cc e)
accepted-requested false false https long nul utf8 bad loopback valid e = absurd (cc valid)
accepted-requested false true false long nul utf8 bad loopback valid e = absurd (cc valid)
accepted-requested false true true true nul utf8 bad loopback valid e = absurd (cc valid)
accepted-requested false true true false true utf8 bad loopback valid e = absurd (cc valid)
accepted-requested false true true false false false bad loopback valid e = absurd (cc valid)
accepted-requested false true true false false true true loopback valid e = absurd (cc valid)

-- An endpoint that the store accepts and that is not empty is one that requests may be sent to,
-- whether or not loopback endpoints are allowed.
pub valid_https_endpoint-endpoint_allowed :
    (K : Checks) (endpoint : Bytes) (loopback : Bool)
    → valid_https_endpoint K endpoint ≡ true
    → is_empty endpoint ≡ false
    → endpoint_allowed endpoint loopback ≡ true
unfolding valid_https_endpoint valid_utf8_text endpoint_allowed
valid_https_endpoint-endpoint_allowed K endpoint loopback valid nonempty =
    rw (sym (contains_forbidden_lem endpoint)) (
      accepted-requested (is_empty endpoint) (leb (length endpoint) 2048)
        (starts_with endpoint (codes "https://")) (ltb 2048 (length endpoint))
        (contains_nul endpoint) (K.utf8_validate endpoint) (contains_forbidden false endpoint)
        (loopback && is_loopback_http_endpoint endpoint) valid nonempty)
