-- ===== src/Sercli/Encryption/PrivateKeyStore.antt =====
-- sercli/src/encryption.cpp: PrivateKeyStore.
use sp2p.Prelude.{String, Bool, Option, some, is_some, ◌&&◌, not, if◌then◌else◌, ◌>>=◌}
use sp2p.Sercli.Encryption.{
  Files, Botan, ElementStore, file_in, in_file, save_private_key_to_file, get_private_key_from_file,
}

pub record PrivateKeyStore : Type 0 where
  pub element : ElementStore
  -- `none` is the null pointer
  pub priv_key : Option String
  pub password : String

-- Saving without a key dereferences the null pointer: `none`.
unfoldable pub save : Botan → String → PrivateKeyStore → Files → Option Files
unfolding save_private_key_to_file
save botan dir s files = do
  key ← s.priv_key
  some (save_private_key_to_file botan key (file_in dir s.element) s.password files)

-- `none` is an EncryptionException.
unfoldable pub load : Botan → Files → String → PrivateKeyStore → Option PrivateKeyStore
unfolding get_private_key_from_file
load botan files dir s = do
  key ← get_private_key_from_file botan files (file_in dir s.element) s.password
  some (record s { priv_key = some key })

unfoldable pub in_memory : PrivateKeyStore → Bool
in_memory s = is_some s.priv_key

unfoldable pub set_key : Option String → PrivateKeyStore → PrivateKeyStore
set_key key s = record s { priv_key = key }

unfoldable pub set_password : String → PrivateKeyStore → PrivateKeyStore
set_password password s = record s { password = password }

-- The store afterwards, and the pointer.
unfoldable pub get_key : Botan → Files → PrivateKeyStore → Option (PrivateKeyStore × Option String)
unfolding in_file load in_memory
get_key botan files s =
    if not (in_memory s) && in_file files s.element.path s.element
    then (do s' ← load botan files s.element.path s; some (s', s'.priv_key))
    else some (s, s.priv_key)
