-- ===== src/Storage/Reopen.antt =====
-- What was written is read back.
use stunner.Base.{◌≡◌, ◌==◌, true, false, some, refl, none, arith, length}
use stunner.Base.Bytes.{Bytes}
use stunner.Base.Result.{ok}
use stunner.Base.Method.{done}
use stunner.Crypto.Primitives.{Primitives}
use stunner.Vault.Box.{open_box-seal_box}
use stunner.Messaging.{Json}
use stunner.Storage.{
  Document, Store, Outside, Change, apply, flush, write_change, seal_document, read_document,
  open_file_store,
}

flush_ok :
    (p : Primitives) (c : Json Document) (o : Outside) (s : Store) (sealed : Bytes)
    → seal_document p c o.nonce s.key s.document ≡ ok sealed
    → o.write ≡ ok tt
    → flush p c o s ≡ done tt (record s { disk = some sealed })
unfolding flush
flush_ok p c o s sealed e w = ground (arith, e, w)

-- Every method that writes, when the write succeeds, the nonce has 12 bytes and the changed document
-- has a JSON form, leaves a file from which opening the store again, with the same key of 32 bytes
-- and a path, gives the same store: nothing that was written is lost.
pub open_file_store-write_change :
    (p : Primitives) (c : Json Document) (o : Outside) (k : Change) (s : Store) (path nonce : Bytes)
    → length s.key ≡ 32
    → length nonce ≡ 12
    → (length path == 0) ≡ false
    → o.nonce ≡ ok nonce
    → o.write ≡ ok tt
    → c.fits (apply k s.document) ≡ true
    → (s' : Store) × (write_change p c o k s ≡ done tt s')
      × (s'.document ≡ apply k s.document)
      × (s'.key ≡ s.key)
      × (open_file_store p c (ok tt) none path s.key s'.disk ≡ ok s')
unfolding write_change open_file_store read_document seal_document
open_file_store-write_change p c o k s path nonce n m some_path drawn written fits =
    let (blob, x, y) = c.unmarshal-marshal (apply k s.document) fits in
    let (sealed, e, f) = open_box-seal_box p s.key nonce blob n m in
    (
      record s { document = apply k s.document; disk = some sealed },
      flush_ok p c o (record s { document = apply k s.document }) sealed (rw (x, drawn) e) written,
      refl,
      refl,
      rw (n, some_path, f, y),
    )
