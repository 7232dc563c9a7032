-- ===== src/Tests/Grants.antt =====
-- Invitations and new passwords on the small tracker.
use sp2p.Prelude.{
  ◌≡◌, ◌==◌, string_eq, ◌∷◌, [], ◌++◌, true, some, refl, any, find, rtrim, has_key, lookup,
  if◌then◌else◌, char_n, first_token,
}
use sp2p.Util.{to_string}
use sp2p.Session.{get_login}
use sp2p.Db.Schema.{Database}
use sp2p.Db.Statements.{is_text, user_id, network_id, insert_invitation, update_password}
use sp2p.Db.Connector.{ok, served, work, query}
use sp2p.Db.Users.{
  create_invitation, unless_not_unique, unless_not_found, change_user_password, get_pass_hash,
}
use sp2p.Db.Users.Passwords.{registered, stored}
use sp2p.Db.Networks.{ProtoNetwork, get_all_networks}
use sp2p.Db.Networks.Invitations.{get_all_networks-create_invitation}
use sp2p.Message.Client.{ClientMessage, RequestType, ChangePassword, bare}
use sp2p.Message.Node.{ResponseType}
use sp2p.Message.Factory.{error_mesage}
use sp2p.Handler.World.{World, with_login, switch_response, good_credentials}
use sp2p.Handler.Accounts.{handle_change_password}
use sp2p.Handler.Passwords.{good_credentials-handle_change_password}
use sp2p.Tests.Data.{env, tracker, tables, sessions, tables-ForeignKeys}

abbrev two_invited : Database
two_invited = record tables {
  invitations = tables.invitations ++ record { user_id = 1; network_id = 1 } ∷ [];
}

create_invitation_ann : create_invitation served "ann" "chess" tables ≡ (two_invited, ok)
unfolding create_invitation work insert_invitation user_id network_id find any is_text rtrim
    unless_not_unique
create_invitation_ann = refl

get_all_networks-create_invitation_example :
    any
      (λ (p : ProtoNetwork). p.name == to_string (rtrim "chess"))
      (get_all_networks served "ann" two_invited)
    ≡ true
get_all_networks-create_invitation_example =
    get_all_networks-create_invitation "ann" "chess" tables two_invited tables-ForeignKeys
      create_invitation_ann

abbrev new_password : ChangePassword
new_password = record { cookie = some "c2"; old_password = some "word"; new_password = some "new" }

abbrev asks_password : ClientMessage
asks_password = record (bare RequestType.change_password) {
  change_password_message = some new_password;
}

abbrev changed : World
changed = record tracker {
  db = record tables {
    users =
        record { id = 1; login = "ann"; password = "secret" }
        ∷ record { id = 2; login = "bob"; password = "new" }
        ∷ [];
  };
}

handle_change_password_bob :
    handle_change_password env asks_password tracker ≡ some (changed, error_mesage ResponseType.ok)
unfolding handle_change_password with_login get_login has_key lookup good_credentials get_pass_hash
    query find is_text rtrim to_string first_token change_user_password work update_password char_n
    unless_not_found switch_response
handle_change_password_bob = refl

logged_bob : get_login "c2" sessions ≡ some "bob"
unfolding get_login has_key lookup
logged_bob = refl

registered_bob : registered "bob" tables ≡ true
unfolding any is_text rtrim
registered_bob = refl

good_credentials-handle_change_password_example :
    (good_credentials env 0 "bob" "word" tracker ≡ true)
    × (good_credentials env 0 "ann" "secret" changed ≡ (
        if rtrim "bob" == rtrim "ann"
        then env.check_bcrypt "secret" (stored (env.generate_bcrypt "new"))
        else good_credentials env 0 "ann" "secret" tracker))
good_credentials-handle_change_password_example =
    good_credentials-handle_change_password env env asks_password new_password "bob" "ann" "secret"
      tracker changed (error_mesage ResponseType.ok) refl logged_bob registered_bob refl refl
      handle_change_password_bob refl
