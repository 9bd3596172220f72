-- ===== src/Examples/Books.antt =====
-- Contact books, mailboxes, vaults and accounts of the toy operations.
use stunner.Base.{ℕ, ◌≡◌, ◌≢◌, ◌⊎◌, refl, none, some, List, [], ◌∷◌, ◌++◌, arith, replicate}
use stunner.Base.Bytes.{Bytes, codes}
use stunner.Base.Eq.{bytes_eq_instance}
use stunner.Base.Dict.{lookup, insert, lookup-insert_self}
use stunner.Base.Result.{ok, key_changed}
use stunner.Base.Method.{done, failed}
use stunner.Crypto.X3dh.Agreement.{IsProper}
use stunner.Contact.{Contact, Book, new_contact, seen_key}
use stunner.Contact.Tofu.{Call, seen, verify, removal, calls, seen_key-calls}
use stunner.Mailbox.{Boxes, box, fetch, pending}
use stunner.Mailbox.Order.{put_all, sent_to, fetch-put_all}
use stunner.Vault.{seal_box, open_box}
use stunner.Vault.Box.{open_box-seal_box}
use stunner.Account.{Account, World, Disk, load_or_create}
use stunner.Account.Reload.{Works, load_or_create-load_or_create}
use stunner.Examples.Toy.{toy}

abbrev ann : Bytes
ann = codes "ann"

abbrev later_calls : List Call
later_calls = verify ann ∷ seen 5 ann (codes "other") ∷ removal (codes "bob") ∷ []

other_names : codes "bob" ≢ ann
other_names = ground arith

abbrev ann_contact : Contact
ann_contact = new_contact toy 3 ann (codes "key")

abbrev book : Book
book = insert ann ann_contact []

in_book : lookup ann book ≡ some ann_contact
in_book = lookup-insert_self ann ann_contact []

seen_first : seen_key toy 3 ann (codes "key") [] ≡ done ann_contact book
unfolding seen_key lookup insert
seen_first = refl

seen_key-calls_example :
    ((codes "key" ≢ codes "other")
      × (seen_key toy 9 ann (codes "other") (calls toy later_calls book)
          ≡ failed key_changed (calls toy later_calls book)))
    ⊎ ((codes "key" ≡ codes "other")
        × ((d : Contact) × (seen_key toy 9 ann (codes "other") (calls toy later_calls book)
              ≡ done d (calls toy later_calls book))
            × (d.identity_key ≡ codes "key")))
seen_key-calls_example =
    seen_key-calls toy 3 9 ann (codes "key") (codes "other") later_calls [] book ann_contact
      (tt, (tt, (other_names, tt))) seen_first

abbrev mails : List (Bytes × Bytes)
mails = (ann, codes "one") ∷ (codes "bob", codes "two") ∷ (ann, codes "three") ∷ []

fetch-put_all_example :
    (m : Boxes) × (fetch ann (put_all mails []) ≡ done (box ann [] ++ sent_to ann mails) m)
    × (pending ann m ≡ 0)
    × (box (codes "bob") m ≡ box (codes "bob") [] ++ sent_to (codes "bob") mails)
fetch-put_all_example = fetch-put_all ann (codes "bob") mails [] other_names

abbrev key_of : ℕ → Bytes
key_of n = n ∷ replicate 31 0

open_box-seal_box_example :
    (sealed : Bytes) × (seal_box toy (ok (replicate 12 1)) (key_of 2) (codes "text") ≡ ok sealed)
    × (open_box toy (key_of 2) sealed ≡ ok (codes "text"))
open_box-seal_box_example =
    open_box-seal_box toy (key_of 2) (replicate 12 1) (codes "text") refl refl

-- A directory that works; `n` makes the keys different.
abbrev world : ℕ → World
world n = record {
  mkdir = ok tt;
  read_fault = none;
  write = ok tt;
  torn = none;
  signing = ok (n ∷ replicate 63 0);
  agreement = ok (key_of n);
  nonce = ok (replicate 12 n);
  signed_pre = ok (key_of n);
  one_time = ok (key_of n);
}

world-Works : (n : ℕ) → Works toy (world n)
world-Works n = record {
  mkdir = refl;
  read_fault = refl;
  write = refl;
  signing = n ∷ replicate 63 0;
  agreement = key_of n;
  nonce = replicate 12 n;
  signed_pre = key_of n;
  one_time = key_of n;
  has_signing = refl;
  has_agreement = refl;
  has_nonce = refl;
  has_signed_pre = refl;
  has_one_time = refl;
  length_signing = refl;
  is_signing_key = refl;
  length_agreement = refl;
  length_nonce = refl;
  length_signed_pre = refl;
  length_one_time = refl;
}

load_or_create-load_or_create_example :
    (a a' : Account) × (d : Disk) × (load_or_create toy (world 3) (key_of 2) none ≡ done a d)
    × (load_or_create toy (world 4) (key_of 2) d ≡ done a' d)
    × (a'.identity ≡ a.identity)
    × (a'.pre_keys.id ≡ a.identity)
    × IsProper toy a.pre_keys
    × IsProper toy a'.pre_keys
load_or_create-load_or_create_example =
    load_or_create-load_or_create toy (key_of 2) refl (world 3) (world 4) (world-Works 3)
      (world-Works 4)
