-- ===== src/Runtime/State.antt =====
-- Settings, SetSettings, SaveState and LoadState of core/pkg/runtime/runtime.go. The node's message
-- store may be missing.
use stunner.Base.{Option, none, some, []}
use stunner.Base.Bytes.{Bytes, codes}
use stunner.Base.Eq.{bytes_eq_instance}
use stunner.Base.Result.{Result, ok, err, bad_json}
use stunner.Base.Method.{Method, Outcome, done, failed}
use stunner.Crypto.Primitives.{Primitives}
use stunner.Settings.{Settings, default_settings}
use stunner.Messaging.{Json}
use stunner.Storage.{
  Document, Store, Outside, save_settings, save_blob, write_change, load_settings, load_blob,
}

abbrev pub state_namespace : Bytes
state_namespace = codes "app"

abbrev pub state_key : Bytes
state_key = codes "state"

unfoldable pub current_settings : Option Store → Settings
current_settings none = default_settings
current_settings (some s) = load_settings s

unfoldable pub text_or : Bytes → Result Bytes → Bytes
text_or other (ok b) = b
text_or other (err e) = other

-- `LoadState`
unfoldable pub load_state : Option Store → Bytes
load_state none = []
load_state (some s) = text_or [] (load_blob state_namespace state_key s)

-- `Settings`
unfoldable pub settings_text : Json Settings → Option Store → Bytes
settings_text j o = text_or (codes "{}") (j.marshal (current_settings o))

-- A call of the store, if there is one.
unfoldable pub kept : Outcome Store (Unit {0}) → Outcome (Option Store) (Unit {0})
kept (done u s) = done u (some s)
kept (failed e s) = failed e (some s)

module _ (p : Primitives) (c : Json Document) (o : Outside) where
  -- `SaveState`
  unfoldable pub save_state : Bytes → Method (Option Store) (Unit {0})
  save_state text none = done tt none
  save_state text (some s) = kept (write_change p c o (save_blob state_namespace state_key text) s)

  unfoldable pub save_parsed : Option Settings → Store → Outcome (Option Store) (Unit {0})
  save_parsed none s = failed bad_json (some s)
  save_parsed (some x) s = kept (write_change p c o (save_settings x) s)

  -- `SetSettings`
  unfoldable pub set_settings : Json Settings → Bytes → Method (Option Store) (Unit {0})
  set_settings j text none = done tt none
  set_settings j text (some s) = save_parsed (j.unmarshal text) s
