-- ===== src/Settings.antt =====
-- core/pkg/settings/settings.go: the user's preferences.
use stunner.Base.{ℕ, Bool, false, List, [], ◌∷◌}
use stunner.Base.Bytes.{Bytes, codes}

-- ICEServer
pub record IceServer : Type 0 where
  pub urls : List Bytes
  pub username : Bytes
  pub credential : Bytes

pub record Settings : Type 0 where
  pub ice_servers : List IceServer
  pub relay_enabled : Bool
  pub relay_address : Bytes
  pub app_lock : Bytes
  pub disappearing_default_seconds : ℕ

unfoldable pub default_ice_servers : List IceServer
default_ice_servers =
    record { urls = codes "stun:stun.l.google.com:19302" ∷ []; username = []; credential = [] }
    ∷ record { urls = codes "stun:stun1.l.google.com:19302" ∷ []; username = []; credential = [] }
    ∷ []

-- `Default`
unfoldable pub default_settings : Settings
default_settings = record {
  ice_servers = default_ice_servers;
  relay_enabled = false;
  relay_address = [];
  app_lock = codes "none";
  disappearing_default_seconds = 0;
}

unfoldable pub effective_ice_servers : Settings → List IceServer
effective_ice_servers s = elim s.ice_servers [ [] ↦ default_ice_servers | x ∷ xs ↦ x ∷ xs ]
