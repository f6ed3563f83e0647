-- ===== src/Gateway/Tests.antt =====
-- Two clients, of which one owns a wallet, and one that leaves.
use alive_human.Base.{
  ℕ, ◌≡◌, refl, true, false, String, List, [], ◌∷◌, Option, none, some, All, str_eq, if◌then◌else◌,
}
use alive_human.Base.Dict.{lookup, insert}
use alive_human.Base.Texts.{is_in, after_prefix, to_lower, char_of, before_colon}
use alive_human.Guards.{Auth, Handshake, socket_can_activate, extract_token}
use alive_human.Web3Auth.{User}
use alive_human.Gateway.{
  connect, disconnect, subscribe, step, join, handle_connection, user_id_of_token,
  can_subscribe_to_channel, owns_address, subscribe_message, handle_subscribe, change_channels,
}
use alive_human.Gateway.Sending.{
  Message, BalanceChange, send_balance_change_event, send_to_channel, send_to_user,
}
use alive_human.Gateway.Access.{Happening, run}
use alive_human.Gateway.Readers.{OwnerAsked, balance_change-owners}
use alive_human.Gateway.Presence.{belongs}
use alive_human.Gateway.Users.{Fresh, receivers, send_to_user-belongs, disconnected-silent}

-- A token is its user's id.
abbrev auth : Auth
auth = record {
  verify = λ token.
      some
        (record { sub = some token; id = none; session_id = none; role = none; is_admin = false });
  validate_session = λ user session. true;
}

abbrev user_with : String → User
user_with id = record {
  id = id;
  username = none;
  email = none;
  email_verified = false;
  profile_picture_url = none;
  wallet_address = if str_eq id "ann" then some "0xAB" else none;
  chain_id = none;
  first_login_at = none;
  last_login_at = none;
  is_admin = false;
}

abbrev users : String → Option User
users id = some (user_with id)

abbrev token : String → Handshake
token t = record { query_token = some t; auth_token = none; authorization = none }

abbrev joined : List Happening
joined = (connect "s2" (some "bob"), users) ∷ (connect "s1" (some "ann"), users) ∷ []

abbrev asked : List Happening
asked =
    (subscribe "s2" (token "bob") "balance:0xab", users)
    ∷ (subscribe "s1" (token "ann") "balance:0xab", users)
    ∷ joined

abbrev change : BalanceChange
change = record {
  address = "0xAb";
  previous_balance = "1";
  new_balance = "2";
  formatted_previous_balance = "1.0";
  formatted_new_balance = "2.0";
  tx_hash = none;
  block_number = 7;
  chain_id = 137;
  network_name = "polygon";
  kind = "";
  timestamp = 0;
}

abbrev hello : String
hello = "hello"

abbrev clock : ℕ → ℕ
clock n = 1000

only_ann : receivers (send_balance_change_event change clock (run auth asked)) ≡ "s1" ∷ []
unfolding send_balance_change_event send_to_channel run step handle_connection user_id_of_token join
    insert lookup subscribe_message handle_subscribe change_channels can_subscribe_to_channel
    owns_address after_prefix to_lower char_of before_colon socket_can_activate extract_token
only_ann = refl

balance_change-owners_example :
    All
      (λ (d : String × Message BalanceChange). OwnerAsked auth "0xAb" d.0 asked)
      (send_balance_change_event change clock (run auth asked))
balance_change-owners_example = balance_change-owners auth asked change clock

joined-Fresh : Fresh auth joined
unfolding Fresh run step handle_connection user_id_of_token join insert lookup
joined-Fresh = (refl, (refl, tt))

send_to_user-belongs_example :
    is_in "s1" (receivers (send_to_user "ann" "notifications" hello 1000 (run auth joined)))
    ≡ belongs (run auth joined) "s1" "ann"
send_to_user-belongs_example =
    send_to_user-belongs auth joined "s1" "ann" "notifications" hello 1000 joined-Fresh

recorded : belongs (run auth joined) "s1" "ann" ≡ true
unfolding run step handle_connection user_id_of_token join insert lookup
recorded = refl

disconnected-silent_example :
    (is_in "s1" (
        receivers
          (send_to_channel "token:price" hello 1000 (run auth ((disconnect "s1", users) ∷ joined))))
      ≡ false)
    × (is_in "s1" (
          receivers (
            send_to_user "ann" "token:price" hello 1000
              (run auth ((disconnect "s1", users) ∷ joined))))
        ≡ false)
disconnected-silent_example =
    disconnected-silent auth joined users "s1" "ann" "token:price" hello 1000 joined-Fresh
