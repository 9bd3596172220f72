-- ===== src/Examples/Restarts.antt =====
-- An app that writes its state and its settings, and starts again.
use stunner.Base.{◌≡◌, refl, none, some, replicate}
use stunner.Base.Bytes.{Bytes, codes}
use stunner.Base.Result.{ok}
use stunner.Base.Method.{done}
use stunner.Settings.{default_settings, default_ice_servers}
use stunner.Storage.{Store, open_file_store}
use stunner.Runtime.State.{load_state, settings_text, save_state, set_settings}
use stunner.Runtime.Restart.{save_and_restart}
use stunner.Examples.Formats.{json}
use stunner.Examples.Documents.{settings, document, outside, keyed}
use stunner.Examples.Toy.{toy}

abbrev chats : Bytes
chats = codes "chats"

abbrev preferences : Bytes
preferences = settings.write default_settings

save_and_restart_example :
    (t u : Store) × (save_state toy (json document) outside chats (some keyed) ≡ done tt (some t))
    × (set_settings toy (json document) outside (json settings) preferences (some t)
        ≡ done tt (some u))
    × (open_file_store toy (json document) (ok tt) none (codes "db") keyed.key u.disk ≡ ok u)
    × (load_state (some u) ≡ chats)
    × (settings_text (json settings) (some u) ≡ preferences)
unfolding default_settings default_ice_servers
save_and_restart_example =
    save_and_restart toy (json document) (json settings) outside outside keyed default_settings
      chats preferences (codes "db") (replicate 12 0) (replicate 12 0) refl refl (refl, refl, refl)
      (refl, refl, refl) refl refl (refl, refl)
