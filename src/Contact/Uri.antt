-- ===== src/Contact/Uri.antt =====
-- URI and ParseURI of core/pkg/contact/contact.go, over net/url and encoding/base64.
use stunner.Base.{
  ℕ, ◌≡◌, refl, ◌∙◌, true, Option, none, some, [], ◌∷◌, length, ◌==◌, ◌&&◌, if◌then◌else◌, arith,
}
use stunner.Base.Bytes.{Bytes, codes}
use stunner.Base.Eq.{bytes_eq, bytes_eq_refl, bytes_eq_instance}
use stunner.Base.Dict.{Dict, lookup, insert}
use stunner.Base.Result.{
  Result, ok, ◌>>=◌, ◌>>◌, check, or_err, bad_uri, not_contact_uri, bad_key_encoding,
  wrong_key_length,
}
use stunner.Crypto.Primitives.{Primitives}
use stunner.Contact.{Contact, new_contact}

-- url.URL, with the values of its query.
pub record Url : Type 0 where
  pub scheme : Bytes
  pub opaque : Bytes
  pub query : Dict Bytes Bytes

abbrev pub scheme_name : Bytes
scheme_name = codes "stunner"

abbrev pub opaque_name : Bytes
opaque_name = codes "contact"

-- (*url.URL).String over url.Values.Encode, url.Parse with Query, and base64.RawURLEncoding. A URL
-- with the program's scheme and opaque part is parsed back, each value under its name.
pub record UrlText : Type 0 where
  pub string : Url → Bytes
  pub parse : Bytes → Option Url
  pub parse-string :
      (q : Dict Bytes Bytes)
      → (u : Url) × (parse
            (string (record { scheme = scheme_name; opaque = opaque_name; query = q }))
          ≡ some u)
        × (u.scheme ≡ scheme_name)
        × (u.opaque ≡ opaque_name)
        × ((k : Bytes) → lookup k u.query ≡ lookup k q)
  pub encode : Bytes → Bytes
  pub decode : Bytes → Option Bytes
  pub decode-encode : (b : Bytes) → decode (encode b) ≡ some b

-- q.Get
unfoldable pub get_value : Bytes → Dict Bytes Bytes → Bytes
get_value k q = elim (lookup k q) [ none ↦ [] | some v ↦ v ]

value_of : (k : Bytes) (q : Dict Bytes Bytes) {v : Bytes} → lookup k q ≡ some v → get_value k q ≡ v
unfolding get_value
value_of k q e = rw (e, get_value) refl

same_value :
    (k : Bytes) (q q' : Dict Bytes Bytes)
    → lookup k q ≡ lookup k q'
    → get_value k q ≡ get_value k q'
unfolding get_value
same_value k q q' e = rw (e, get_value) refl

module _ (p : Primitives) (t : UrlText) where
  unfoldable pub query_of : Bytes → Bytes → Dict Bytes Bytes
  query_of handle key =
      let q = insert (codes "k") (t.encode key) [] in
      if length handle == 0 then q else insert (codes "n") handle q

  -- `URI`
  unfoldable pub contact_uri : Bytes → Bytes → Bytes
  contact_uri handle key =
      t.string (record { scheme = scheme_name; opaque = opaque_name; query = query_of handle key })

  -- `ParseURI`; `now` is the time that New reads.
  unfoldable pub parse_uri : ℕ → Bytes → Result Contact
  parse_uri now s = do
    u ← or_err (t.parse s) bad_uri
    check (bytes_eq u.scheme scheme_name && bytes_eq u.opaque opaque_name) not_contact_uri
    raw ← or_err (t.decode (get_value (codes "k") u.query)) bad_key_encoding
    check (length raw == 32) wrong_key_length
    ok (new_contact p now (get_value (codes "n") u.query) raw)

  key_of_query :
      (handle key : Bytes) → lookup (codes "k") (query_of handle key) ≡ some (t.encode key)
  unfolding query_of lookup insert bytes_eq
  key_of_query handle key = ground arith

  handle_of_query : (handle key : Bytes) → get_value (codes "n") (query_of handle key) ≡ handle
  unfolding query_of get_value lookup insert bytes_eq
  handle_of_query [] key = refl
  handle_of_query (h ∷ hs) key = ground arith

  -- The contact URI of a handle, empty or not, and a key of 32 bytes is parsed to a new contact with
  -- this handle and this key.
  pub parse_uri-contact_uri :
      (now : ℕ) (handle key : Bytes)
      → length key ≡ 32
      → parse_uri now (contact_uri handle key) ≡ ok (new_contact p now handle key)
  unfolding parse_uri contact_uri
  parse_uri-contact_uri now handle key n =
      let (u, e, s, o, same) = t.parse-string (query_of handle key) in
      let k : get_value (codes "k") u.query ≡ t.encode key =
        value_of (codes "k") u.query (same (codes "k") ∙ key_of_query handle key) in
      let name : get_value (codes "n") u.query ≡ handle =
        same_value (codes "n") u.query (query_of handle key) (same (codes "n"))
        ∙ handle_of_query handle key in
      let is_ours : (bytes_eq u.scheme scheme_name && bytes_eq u.opaque opaque_name) ≡ true =
        rw (s, o, bytes_eq_refl scheme_name, bytes_eq_refl opaque_name) refl in
      ground (arith, e, is_ours, k, t.decode-encode key, n, name)
