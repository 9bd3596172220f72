-- ===== src/Runtime/Restart.antt =====
-- What the app finds again when it starts with the store that it wrote.
use stunner.Base.{◌++◌, ◌∷◌, ◌≡◌, refl, ap, ◌∙◌, subst, ◌==◌, true, false, none, some, length}
use stunner.Base.Bytes.{Bytes}
use stunner.Base.Eq.{bytes_eq_refl, bytes_eq_instance}
use stunner.Base.Dict.{Dict, lookup, insert, lookup-insert}
use stunner.Base.Result.{ok}
use stunner.Base.Method.{done}
use stunner.Crypto.Primitives.{Primitives}
use stunner.Settings.{Settings}
use stunner.Messaging.{Json}
use stunner.Storage.{
  Document, Store, Outside, save_settings, save_blob, apply, open_file_store, load_settings,
  load_blob,
}
use stunner.Storage.Reopen.{open_file_store-write_change}
use stunner.Runtime.State.{
  state_namespace, state_key, current_settings, text_or, load_state, settings_text, kept,
  save_state, save_parsed, set_settings,
}

lookup_inserted : (k v : Bytes) (m : Dict Bytes Bytes) → lookup k (insert k v m) ≡ some v
lookup_inserted k v m = lookup-insert k k v m ∙ rw (bytes_eq_refl k) refl

load_state-save_settings :
    (x : Settings) (text : Bytes) (d : Document) (s : Store)
    → s.document ≡ apply (save_settings x) (apply (save_blob state_namespace state_key text) d)
    → load_state (some s) ≡ text
unfolding load_state load_blob apply text_or
load_state-save_settings x text d s e =
    rw (e, lookup_inserted (state_namespace ++ b'/' ∷ state_key) text d.blobs) refl

settings_text-save_settings :
    (j : Json Settings) (x : Settings) (b : Bytes) (d : Document) (s : Store)
    → s.document ≡ apply (save_settings x) d
    → j.marshal x ≡ ok b
    → settings_text j (some s) ≡ b
unfolding settings_text current_settings load_settings apply text_or
settings_text-save_settings j x b d s e m = rw (e, m) refl

module _ (p : Primitives) (c : Json Document) (j : Json Settings) where
  -- The app saves its state and the settings, both writes succeed with nonces of 12 bytes, and
  -- what is written has a JSON form: then opening the store again, with the same key of 32 bytes and
  -- a path, succeeds, LoadState gives the state and Settings the JSON form of the settings.
  pub save_and_restart :
      (o o' : Outside) (s : Store) (x : Settings) (text json path nonce nonce' : Bytes)
      → length s.key ≡ 32
      → (length path == 0) ≡ false
      → (length nonce ≡ 12) × (o.nonce ≡ ok nonce) × (o.write ≡ ok tt)
      → (length nonce' ≡ 12) × (o'.nonce ≡ ok nonce') × (o'.write ≡ ok tt)
      → c.fits (apply (save_blob state_namespace state_key text) s.document) ≡ true
      → c.fits
          (apply (save_settings x) (apply (save_blob state_namespace state_key text) s.document))
        ≡ true
      → (j.unmarshal json ≡ some x) × (j.marshal x ≡ ok json)
      → (t u : Store) × (save_state p c o text (some s) ≡ done tt (some t))
        × (set_settings p c o' j json (some t) ≡ done tt (some u))
        × (open_file_store p c (ok tt) none path s.key u.disk ≡ ok u)
        × (load_state (some u) ≡ text)
        × (settings_text j (some u) ≡ json)
  unfolding save_state set_settings save_parsed kept
  save_and_restart o o' s x text json path nonce nonce' n some_path (m, drawn, written)
        (m', drawn', written') f f' (read, shown) =
      let d : Document = apply (save_blob state_namespace state_key text) s.document in
      let (t, a, b, k, _) =
        open_file_store-write_change p c o (save_blob state_namespace state_key text) s path nonce n
          m some_path drawn written f in
      let (u, a', b', k', again) =
        open_file_store-write_change p c o' (save_settings x) t path nonce' (ap length k ∙ n) m'
          some_path drawn' written' (ap (λ y. c.fits (apply (save_settings x) y)) b ∙ f') in
      let same : u.document ≡ apply (save_settings x) d = b' ∙ ap (apply (save_settings x)) b in
      (
        t,
        u,
        rw a refl,
        rw (read, a') refl,
        subst (λ y. open_file_store p c (ok tt) none path y u.disk ≡ ok u) k again,
        load_state-save_settings x text s.document u same,
        settings_text-save_settings j x json d u same shown,
      )
