-- ===== src/Db/Users/Passwords.antt =====
-- tracker/qmake_project/db/psqlconnector.cpp: the methods that read and write password hashes.
use sp2p.Prelude.{
  ◌≡◌, refl, ◌∙◌, ap, Bool, true, false, List, [], ◌∷◌, ◌++◌, map, Option, none, some, String,
  arith, ◌==◌, nat_eq, string_eq, ==_iff, if◌then◌else◌, select, any, find, length, rtrim, char_n,
  Unique, Bool-cases, inl, inr, any-congr, length-select-zero, find-append_new, find-append_other,
  find-map, find-test, any-find-none, ◌>>=◌,
}
use sp2p.Util.{to_string}
use sp2p.Db.Schema.{User, Database}
use sp2p.Db.Statements.{is_text, insert_user, update_password}
use sp2p.Db.Connector.{ok, served}
use sp2p.Db.Users.{create_user, user_exists, get_pass_hash, change_user_password}
use sp2p.Db.Uniqueness.{Constraints, same_login, ==_sym}

-- Whether a user of that login is in the table.
abbrev pub registered : String → Database → Bool
registered login db = any (λ (u : User). is_text login u.login) db.users

-- Under the unique constraint the rows of one login are at most one.
length_of_login :
    (login : String) (users : List User)
    → Unique same_login users
    → length (select (λ (u : User). is_text login u.login) users)
      ≡ (if any (λ (u : User). is_text login u.login) users then 1 else 0)
unfolding is_text any select
length_of_login login [] u = refl
length_of_login login (x ∷ xs) u = elim (Bool-cases (x.login == rtrim login)) [
  | inl e ↦ ground (arith, length-select-zero (λ (v : User). is_text login v.login) xs (others e))
  | inr e ↦ ground (arith, length_of_login login xs u.1)
]
  where
    others : (x.login == rtrim login) ≡ true → any (λ (v : User). is_text login v.login) xs ≡ false
    others e =
        any-congr (λ (v : User). is_text login v.login) (same_login x)
          (λ v. rw ((==_iff x.login (rtrim login)).0 e) (==_sym v.login (rtrim login))) xs
        ∙ u.0

-- Under the unique constraints a served `userExists` answers whether the login is registered.
pub user_exists_lem :
    (login : String) (db : Database)
    → Constraints db
    → user_exists served login db ≡ registered login db
unfolding user_exists
user_exists_lem login db c = rw (length_of_login login db.users c.logins) (ground arith)

-- What a later login is checked against.
abbrev pub stored : String → String
stored hash = to_string (rtrim hash)

abbrev new_user : String → String → Database → User
new_user login hash db = record { id = db.next_user; login = rtrim login; password = rtrim hash }

-- A user that was created was not registered, and is the table's last row.
create_user_ok :
    (login hash : String) (db db' : Database)
    → create_user served login hash db ≡ (db', ok)
    → (registered login db ≡ false) × (db'.users ≡ db.users ++ new_user login hash db ∷ [])
unfolding create_user insert_user char_n
create_user_ok login hash db db' h = ground arith

find_new :
    (login hash other : String) (db : Database)
    → registered login db ≡ false
    → find (λ (u : User). is_text other u.login) (db.users ++ new_user login hash db ∷ []) ≡ (
        if rtrim login == rtrim other
        then some (new_user login hash db)
        else find (λ (u : User). is_text other u.login) db.users)
unfolding is_text
find_new login hash other db free = elim (Bool-cases (rtrim login == rtrim other)) [
  | inl e ↦
      let same : rtrim login ≡ rtrim other = (==_iff (rtrim login) (rtrim other)).0 e in
      rw e
        (find-append_new (λ (u : User). is_text other u.login) db.users _ (rw (← same) free) ∙ rw e)
  | inr e ↦ rw e (find-append_other (λ (u : User). is_text other u.login) db.users _ e)
]

abbrev hash_of : Option User → String
hash_of none = ""
hash_of (some u) = to_string u.password

get_pass_hash-find :
    (login : String) (db : Database)
    → get_pass_hash served login db ≡ hash_of (find (λ (u : User). is_text login u.login) db.users)
unfolding get_pass_hash
get_pass_hash-find login db = ground arith

-- After a successful `createUser`, over a link that serves, the hash that a login is checked
-- against is the new one for that login, and the old one for every other.
pub create_user-get_pass_hash :
    (login hash other : String) (db db' : Database)
    → create_user served login hash db ≡ (db', ok)
    → get_pass_hash served other db'
      ≡ (if rtrim login == rtrim other then stored hash else get_pass_hash served other db)
create_user-get_pass_hash login hash other db db' h =
    let (free, rows) = create_user_ok login hash db db' h in
    let before = get_pass_hash-find other db in
    get_pass_hash-find other db'
    ∙ ap (λ us. hash_of (find (λ (u : User). is_text other u.login) us)) rows
    ∙ ap hash_of (find_new login hash other db free)
    ∙ ground (arith, before)

abbrev changed : String → String → User → User
changed login hash u = if is_text login u.login then record u { password = rtrim hash } else u

change_user_password_ok :
    (login hash : String) (db db' : Database)
    → change_user_password served login hash db ≡ (db', ok)
    → db'.users ≡ map (changed login hash) db.users
unfolding change_user_password update_password char_n
change_user_password_ok login hash db db' h = ground arith

-- The row that is found for `other` belongs to `login` exactly when the two are one login.
hash_of-changed :
    (login hash other : String) (u : User)
    → is_text other u.login ≡ true
    → hash_of (some (changed login hash u))
      ≡ (if rtrim login == rtrim other then stored hash else to_string u.password)
unfolding is_text
hash_of-changed login hash other u e = ground (
  arith,
  ==_iff u.login (rtrim other),
  ==_iff u.login (rtrim login),
  ==_iff (rtrim login) (rtrim other),
)

-- Logins that differ in trailing blanks only are one login.
registered-rtrim :
    (login other : String) (db : Database)
    → rtrim login ≡ rtrim other
    → registered login db ≡ registered other db
unfolding is_text
registered-rtrim login other db e = ap (λ t. any (λ (u : User). u.login == t) db.users) e

-- After a successful `changeUserPassword` of a registered user, over a link that serves, the hash
-- that a login is checked against is the new one for that user, and the old one for every other.
pub change_user_password-get_pass_hash :
    (login hash other : String) (db db' : Database)
    → registered login db ≡ true
    → change_user_password served login hash db ≡ (db', ok)
    → get_pass_hash served other db'
      ≡ (if rtrim login == rtrim other then stored hash else get_pass_hash served other db)
change_user_password-get_pass_hash login hash other db db' r h =
    get_pass_hash-find other db'
    ∙ ap (λ us. hash_of (find (λ (u : User). is_text other u.login) us))
        (change_user_password_ok login hash db db' h)
    ∙ ap hash_of (
        find-map (λ (u : User). is_text other u.login) (changed login hash) (λ u. ground arith)
          db.users)
    ∙ found (find (λ (u : User). is_text other u.login) db.users) refl
  where
    found :
        (o : Option User)
        → find (λ (u : User). is_text other u.login) db.users ≡ o
        → hash_of (do u ← o; some (changed login hash u))
          ≡ (if rtrim login == rtrim other then stored hash else get_pass_hash served other db)
    found none e = ground (
      arith,
      get_pass_hash-find other db,
      any-find-none (λ (u : User). is_text other u.login) db.users e,
      registered-rtrim login other db,
      ==_iff (rtrim login) (rtrim other),
    )
    found (some u) e =
        hash_of-changed login hash other u (find-test _ db.users u e)
        ∙ ground (arith, get_pass_hash-find other db)
