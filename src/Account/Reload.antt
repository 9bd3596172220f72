-- ===== src/Account/Reload.antt =====
-- An account that was created is found again.
use stunner.Base.{◌≡◌, refl, sym, subst, arith, ◌∙◌, none, some, [], length, true}
use stunner.Base.Bytes.{Bytes}
use stunner.Base.Result.{ok}
use stunner.Base.Method.{done}
use stunner.Crypto.Primitives.{Primitives}
use stunner.Crypto.X3dh.{PreKeys, generate_pre_keys}
use stunner.Crypto.X3dh.Agreement.{IsProper, generate_pre_keys-IsProper}
use stunner.Identity.{Identity, generate, marshal}
use stunner.Identity.Marshal.{unmarshal-marshal}
use stunner.Vault.Box.{open_box-seal_box}
use stunner.Account.{
  Account, World, Disk, load_or_create, load_or_create_identity, load_identity, create_identity,
  write_file, may_open, with_pre_keys,
}

-- The directory can be used, and the keys that are drawn have the lengths that Go's key generators
-- give them.
pub record Works (p : Primitives) (w : World) : Type 0 where
  pub mkdir : w.mkdir ≡ ok tt
  pub read_fault : w.read_fault ≡ none
  pub write : w.write ≡ ok tt
  pub signing : Bytes
  pub agreement : Bytes
  pub nonce : Bytes
  pub signed_pre : Bytes
  pub one_time : Bytes
  pub has_signing : w.signing ≡ ok signing
  pub has_agreement : w.agreement ≡ ok agreement
  pub has_nonce : w.nonce ≡ ok nonce
  pub has_signed_pre : w.signed_pre ≡ ok signed_pre
  pub has_one_time : w.one_time ≡ ok one_time
  pub length_signing : length signing ≡ 64
  pub is_signing_key : p.is_signing_key signing ≡ true
  pub length_agreement : length agreement ≡ 32
  pub length_nonce : length nonce ≡ 12
  pub length_signed_pre : length signed_pre ≡ 32
  pub length_one_time : length one_time ≡ 32

module _ (p : Primitives) (key : Bytes) (k : length key ≡ 32) where
  fresh_identity : Bytes → Bytes → Identity
  fresh_identity s a = record {
    signing_pub = p.sign_public s;
    signing_priv = s;
    agreement_priv = a;
  }

  -- Creating the identity, and what is on disk then.
  made_identity :
      (w : World)
      → (v : Works p w)
      → let id = fresh_identity v.signing v.agreement in
        (sealed : Bytes) × (create_identity p w key ≡ ok (id, sealed))
        × (load_identity p key sealed ≡ ok id)
  unfolding create_identity load_identity generate fresh_identity
  made_identity w v =
      let id = fresh_identity v.signing v.agreement in
      let (sealed, e, o) = open_box-seal_box p key v.nonce (marshal p id) k v.length_nonce in
      (
        sealed,
        rw (v.has_signing, v.has_agreement, v.has_nonce, e),
        rw (o, unmarshal-marshal p id v.length_signing v.length_agreement refl),
      )

  created :
      (w : World)
      → (v : Works p w)
      → let id = fresh_identity v.signing v.agreement in
        (sealed : Bytes) × (load_or_create_identity p w key none ≡ done id (some sealed))
        × (load_identity p key sealed ≡ ok id)
  unfolding load_or_create_identity write_file
  created w v =
      let (sealed, e, o) = made_identity w v in
      (sealed, ground (arith, v.read_fault, v.write, e), o)

  found :
      (w : World) (v : Works p w) (sealed : Bytes) (id : Identity)
      → load_identity p key sealed ≡ ok id
      → load_or_create_identity p w key (some sealed) ≡ done id (some sealed)
  unfolding load_or_create_identity
  found w v sealed id o = ground (arith, v.read_fault, o)

  finished :
      (w : World) (v : Works p w) (id : Identity) (d d' : Disk)
      → length id.agreement_priv ≡ 32
      → length id.signing_priv ≡ 64
      → p.is_signing_key id.signing_priv ≡ true
      → id.signing_pub ≡ p.sign_public id.signing_priv
      → load_or_create_identity p w key d ≡ done id d'
      → (a : Account) × (load_or_create p w key d ≡ done a d')
        × (a.identity ≡ id)
        × (a.pre_keys.id ≡ id)
        × IsProper p a.pre_keys
  unfolding load_or_create may_open with_pre_keys
  finished w v id d d' x y z u e =
      let (pre, made, same, proper) =
        generate_pre_keys-IsProper p v.signed_pre v.one_time id x v.length_signed_pre
          v.length_one_time y z u in
      (
        record { identity = id; pre_keys = pre; contacts = []; key = key },
        opened id pre
            (subst (λ g. generate_pre_keys p g w.one_time id ≡ ok pre) (sym v.has_signed_pre)
              (subst (λ g. generate_pre_keys p (ok v.signed_pre) g id ≡ ok pre) (sym v.has_one_time)
                made))
            e,
        refl,
        same,
        proper,
      )
    where
      opened :
          (id : Identity) (pre : PreKeys)
          → generate_pre_keys p w.signed_pre w.one_time id ≡ ok pre
          → load_or_create_identity p w key d ≡ done id d'
          → load_or_create p w key d
            ≡ done (record { identity = id; pre_keys = pre; contacts = []; key = key }) d'
      opened id pre made e = ground (arith, k, v.mkdir, made, e)

  -- In an empty directory where the calls of the file system succeed, with a key of 32 bytes and
  -- drawn keys of the right lengths, LoadOrCreate makes an account and writes its file; opening
  -- the directory again with the same key finds the same identity, whatever keys are drawn then.
  -- Both times the account has proper prekeys of that identity.
  pub load_or_create-load_or_create :
      (w w' : World)
      → Works p w
      → Works p w'
      → (a a' : Account) × (d : Disk) × (load_or_create p w key none ≡ done a d)
        × (load_or_create p w' key d ≡ done a' d)
        × (a'.identity ≡ a.identity)
        × (a'.pre_keys.id ≡ a.identity)
        × IsProper p a.pre_keys
        × IsProper p a'.pre_keys
  unfolding fresh_identity
  load_or_create-load_or_create w w' v v' =
      let id = fresh_identity v.signing v.agreement in
      let (sealed, e, o) = created w v in
      let (a, x, i, _, proper) =
        finished w v id none (some sealed) v.length_agreement v.length_signing v.is_signing_key refl
          e in
      let (a', x', i', j', proper') =
        finished w' v' id (some sealed) (some sealed) v.length_agreement v.length_signing
          v.is_signing_key refl (found w' v' sealed id o) in
      (a, a', some sealed, x, x', i' ∙ sym i, j' ∙ sym i, proper, proper')
