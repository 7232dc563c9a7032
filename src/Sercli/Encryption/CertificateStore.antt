-- ===== src/Sercli/Encryption/CertificateStore.antt =====
-- sercli/src/encryption.cpp: CertificateStore.
use sp2p.Prelude.{String, Bool, Option, some, is_some, ◌&&◌, not, if◌then◌else◌, ◌>>=◌}
use sp2p.Sercli.Encryption.{
  Files, Botan, ElementStore, file_in, in_file, save_certificate_to_file, get_certificate_from_file,
}

pub record CertificateStore : Type 0 where
  pub element : ElementStore
  pub cert : Option String

unfoldable pub save : Botan → String → CertificateStore → Files → Option Files
unfolding save_certificate_to_file
save botan dir s files = do
  c ← s.cert
  some (save_certificate_to_file botan c (file_in dir s.element) files)

unfoldable pub load : Botan → Files → String → CertificateStore → Option CertificateStore
unfolding get_certificate_from_file
load botan files dir s = do
  c ← get_certificate_from_file botan files (file_in dir s.element)
  some (record s { cert = some c })

unfoldable pub in_memory : CertificateStore → Bool
in_memory s = is_some s.cert

unfoldable pub set_certificate : Option String → CertificateStore → CertificateStore
set_certificate c s = record s { cert = c }

unfoldable pub get_certificate :
    Botan → Files → CertificateStore → Option (CertificateStore × Option String)
unfolding in_file load in_memory
get_certificate botan files s =
    if not (in_memory s) && in_file files s.element.path s.element
    then (do s' ← load botan files s.element.path s; some (s', s'.cert))
    else some (s, s.cert)
