-- ===== src/Examples/Contacts.antt =====
-- A book of two contacts, and a contact URI as bytes.
use mathlib.Core.List.{Perm}
use stunner.Base.{◌≡◌, refl, some, [], ◌∷◌, map}
use stunner.Base.Bytes.{Bytes, codes}
use stunner.Base.Dict.{Dict}
use stunner.Base.Result.{ok}
use stunner.Contact.{Book, new_contact, list_contacts}
use stunner.Contact.Listed.{IsSorted, list_contacts-IsSorted}
use stunner.Contact.Uri.{
  Url, UrlText, scheme_name, opaque_name, contact_uri, parse_uri, parse_uri-contact_uri,
}
use stunner.Examples.Formats.{Format, pair, via, list, bytes, codec}
use stunner.Examples.Sessions.{key_of}
use stunner.Examples.Toy.{toy}

abbrev book : Book
book =
    (codes "bob", new_contact toy 1 (codes "bob") (key_of 2))
    ∷ (codes "alice", new_contact toy 2 (codes "alice") (key_of 3))
    ∷ []

list_contacts-IsSorted_example :
    IsSorted (list_contacts book) × Perm (map (λ e. e.1) book) (list_contacts book)
list_contacts-IsSorted_example = list_contacts-IsSorted book

abbrev url_of : Bytes × (Bytes × Dict Bytes Bytes) → Url
url_of (s, (o, q)) = record { scheme = s; opaque = o; query = q }

abbrev url : Format Url
url =
    via (pair bytes (pair bytes (list (pair bytes bytes)))) url_of
      (λ u. (u.scheme, (u.opaque, u.query))) (λ u. refl)

abbrev url_text : UrlText
url_text = record {
  string = (codec url).marshal;
  parse = (codec url).unmarshal;
  parse-string = λ q. (
    record { scheme = scheme_name; opaque = opaque_name; query = q },
    (codec url).unmarshal-marshal
        (record { scheme = scheme_name; opaque = opaque_name; query = q }),
    refl,
    refl,
    λ k. refl,
  );
  encode = λ b. b;
  decode = λ b. some b;
  decode-encode = λ b. refl;
}

parse_uri-contact_uri_example :
    parse_uri toy url_text 5 (contact_uri toy url_text (codes "bob") (key_of 2))
    ≡ ok (new_contact toy 5 (codes "bob") (key_of 2))
parse_uri-contact_uri_example = parse_uri-contact_uri toy url_text 5 (codes "bob") (key_of 2) refl
