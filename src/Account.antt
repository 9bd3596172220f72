-- ===== src/Account.antt =====
-- core/pkg/account/account.go: the account of a data directory. The state is its identity file.
pub mod Reload
use stunner.Base.{ℕ, Option, none, some, [], ◌∷◌, ◌==◌, length}
use stunner.Base.Bytes.{Bytes}
use stunner.Base.Result.{Error, Result, ok, err, ◌>>=◌, ◌>>◌, check, bad_store_key}
use stunner.Base.Method.{Outcome, Method, done, failed}
use stunner.Crypto.Primitives.{Primitives}
use stunner.Crypto.Session.{MemStore, new_mem_store}
use stunner.Crypto.X3dh.{PreKeys, generate_pre_keys}
use stunner.Contact.{Book}
use stunner.Identity.{Identity, generate, marshal, unmarshal}
use stunner.Vault.{key_size, seal_box, open_box}

pub record Account : Type 0 where
  pub identity : Identity
  pub pre_keys : PreKeys
  pub contacts : Book
  pub key : Bytes

-- What the outside gives one call of `LoadOrCreate`: os.MkdirAll, os.ReadFile where it fails on a
-- file that exists, os.WriteFile with what a failed write leaves behind, and the random keys.
pub record World : Type 0 where
  pub mkdir : Result (Unit {0})
  pub read_fault : Option Error
  pub write : Result (Unit {0})
  pub torn : Option Bytes
  pub signing : Result Bytes
  pub agreement : Result Bytes
  pub nonce : Result Bytes
  pub signed_pre : Result Bytes
  pub one_time : Result Bytes

-- The identity file: `none` if there is none.
abbrev pub Disk : Type 0
Disk = Option Bytes

-- os.WriteFile
unfoldable pub write_file : World → Bytes → Method Disk (Unit {0})
write_file w b d = elim w.write [ ok u ↦ done u (some b) | err e ↦ failed e w.torn ]

-- The case of a file that is there.
unfoldable pub load_identity : Primitives → Bytes → Bytes → Result Identity
load_identity p key sealed = do blob ← open_box p key sealed; unmarshal p blob

module _ (p : Primitives) (w : World) (key : Bytes) where
  -- The identity and its sealed form, in the case of no file.
  unfoldable pub create_identity : Result (Identity × Bytes)
  create_identity = do
    id ← generate p w.signing w.agreement
    sealed ← seal_box p w.nonce key (marshal p id)
    ok (id, sealed)

  unfoldable pub load_or_create_identity : Method Disk Identity
  load_or_create_identity d = elim w.read_fault [
    | some e ↦ failed e d
    | none ↦ elim d [
      | some sealed ↦ elim (load_identity p key sealed) [
        | ok id ↦ done id (some sealed)
        | err e ↦ failed e (some sealed)
      ]
      | none ↦ elim create_identity [
        | err e ↦ failed e none
        | ok made ↦ elim (write_file w made.1 none) [
          | done u d' ↦ done made.0 d'
          | failed e d' ↦ failed e d'
        ]
      ]
    ]
  ]

  -- The two checks in front.
  unfoldable pub may_open : Result (Unit {0})
  may_open = do check (length key == key_size) bad_store_key; w.mkdir

  -- The end: prekeys and an empty contact book.
  unfoldable pub with_pre_keys : Identity → Disk → Outcome Disk Account
  with_pre_keys id d = elim (generate_pre_keys p w.signed_pre w.one_time id) [
    | err e ↦ failed e d
    | ok pre ↦ done (record { identity = id; pre_keys = pre; contacts = []; key = key }) d
  ]

  unfoldable pub load_or_create : Method Disk Account
  load_or_create d = elim may_open [
    | err e ↦ failed e d
    | ok u ↦ elim (load_or_create_identity d) [
      | failed e d' ↦ failed e d'
      | done id d' ↦ with_pre_keys id d'
    ]
  ]

-- `Sessions`
unfoldable pub sessions : Account → MemStore
sessions a = new_mem_store a.identity (some a.pre_keys)
