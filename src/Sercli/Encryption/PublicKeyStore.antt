-- ===== src/Sercli/Encryption/PublicKeyStore.antt =====
-- sercli/src/encryption.cpp: PublicKeyStore.
use sp2p.Prelude.{String, Bool, Option, some, is_some, ◌&&◌, not, if◌then◌else◌, ◌>>=◌}
use sp2p.Sercli.Encryption.{
  Files, Botan, ElementStore, file_in, in_file, save_public_key_to_file, get_public_key_from_file,
}

pub record PublicKeyStore : Type 0 where
  pub element : ElementStore
  pub pub_key : Option String

unfoldable pub save : Botan → String → PublicKeyStore → Files → Option Files
unfolding save_public_key_to_file
save botan dir s files = do
  c ← s.pub_key
  some (save_public_key_to_file botan c (file_in dir s.element) files)

unfoldable pub load : Botan → Files → String → PublicKeyStore → Option PublicKeyStore
unfolding get_public_key_from_file
load botan files dir s = do
  c ← get_public_key_from_file botan files (file_in dir s.element)
  some (record s { pub_key = some c })

unfoldable pub in_memory : PublicKeyStore → Bool
in_memory s = is_some s.pub_key

unfoldable pub set_key : Option String → PublicKeyStore → PublicKeyStore
set_key c s = record s { pub_key = c }

unfoldable pub get_key : Botan → Files → PublicKeyStore → Option (PublicKeyStore × Option String)
unfolding in_file load in_memory
get_key botan files s =
    if not (in_memory s) && in_file files s.element.path s.element
    then (do s' ← load botan files s.element.path s; some (s', s'.pub_key))
    else some (s, s.pub_key)
