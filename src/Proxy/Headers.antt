-- ===== src/Proxy/Headers.antt =====
-- crates/pulsate-proxy/src/forward.rs: the headers of a forwarded request and of its response.
use pulsate.Prelude.{
  Bool, not, Option, none, some, List, [], ◌∷◌, ◌++◌, Str, str_eq, bytes, any, map, retain,
  is_empty, split, trim, to_ascii_lowercase, if◌then◌else◌,
}
use pulsate.Http.{HeaderApi, HeaderWriter}
use pulsate.Net.{IpAddr}

abbrev pub hop_by_hop : List Str
hop_by_hop =
    bytes "connection"
    ∷ bytes "keep-alive"
    ∷ bytes "proxy-authenticate"
    ∷ bytes "proxy-authorization"
    ∷ bytes "te"
    ∷ bytes "trailers"
    ∷ bytes "transfer-encoding"
    ∷ bytes "upgrade"
    ∷ bytes "host"
    ∷ bytes "content-length"
    ∷ []

-- The tokens of a `Connection` header.
abbrev pub tokens_of : Option Str → List Str
tokens_of none = []
tokens_of (some conn) =
    retain (λ t. not (is_empty t)) (map (λ t. to_ascii_lowercase (trim t)) (split b',' conn))

module _ (api : HeaderApi) where
  abbrev pub read_value : Option api.HeaderValue → Option Str
  read_value none = none
  read_value (some v) = api.to_str v

  -- The set as the list of its members.
  abbrev pub connection_strip_set : api.HeaderMap → List Str
  connection_strip_set h = hop_by_hop ++ tokens_of (read_value (api.get h (bytes "connection")))

  abbrev pub is_stripped : List Str → Str → Bool
  is_stripped strip name = any (str_eq name) strip

  module _ (out : HeaderWriter api) where
    -- The loops that copy the headers which are not stripped.
    unfoldable pub copy_headers :
        List Str → List (Str × api.HeaderValue) → api.HeaderMap → api.HeaderMap
    copy_headers strip [] h = h
    copy_headers strip ((name, v) ∷ items) h =
        copy_headers strip items (if is_stripped strip name then h else out.insert h name v)

    abbrev pub insert_text : Str → Option api.HeaderValue → api.HeaderMap → api.HeaderMap
    insert_text name none h = h
    insert_text name (some v) h = out.insert h name v

    abbrev pub forwarded_for : Option Str → Str → Str
    forwarded_for (some existing) ip = existing ++ (bytes ", " ++ ip)
    forwarded_for none ip = ip

    -- The headers of `normalize_response`.
    unfoldable pub response_headers : api.HeaderMap → api.HeaderMap
    response_headers h = copy_headers (connection_strip_set h) (api.iter h) out.empty

    module _ (ip_text : IpAddr → Str) where
      abbrev pub insert_client : api.HeaderMap → Option IpAddr → api.HeaderMap → api.HeaderMap
      insert_client orig none h = h
      insert_client orig (some ip) h =
          insert_text (bytes "x-forwarded-for")
            (out.from_text
              (forwarded_for (read_value (api.get orig (bytes "x-forwarded-for"))) (ip_text ip)))
            h

      unfoldable pub apply_forwarded :
          api.HeaderMap → Option IpAddr → Str → api.HeaderMap → api.HeaderMap
      apply_forwarded orig client host h =
          let named =
            insert_text (bytes "x-forwarded-host") (out.from_text host)
              (insert_client orig client h) in
          let proto =
            out.insert named (bytes "x-forwarded-proto") (out.from_static (bytes "http")) in
          out.insert proto (bytes "via") (out.from_static (bytes "1.1 pulsate"))

      -- The headers of `build_request`.
      unfoldable pub request_headers : api.HeaderMap → Option IpAddr → Str → api.HeaderMap
      request_headers orig client host =
          apply_forwarded orig client host
            (copy_headers (connection_strip_set orig) (api.iter orig) out.empty)
