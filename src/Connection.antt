-- ===== src/Connection.antt =====
-- The connection service of internal/whatsapp/service.go: what it decides from the state of an instance
-- and of its client, and the phone numbers of internal/whatsapp/phone.go.
pub mod Cleanup
pub mod Phone
pub mod Laws
pub mod Balance
pub mod Logout
pub mod Restore
pub mod Restoring
pub mod Leases
mod Tests
use arandu_whatsapp.Database.{
  ConnectionStatus, Db, InstanceStatus, connecting, logged_out, online, pairing, pairing_code,
  qr_code, reconnecting,
}
use arandu_whatsapp.Errors.{
  Error, Result, device_mismatch, fail, invalid_phone_number, ok, sentinel,
}
use arandu_whatsapp.Hub.{Hub}
use arandu_whatsapp.Policy.{Action-eq}
use arandu_whatsapp.Prelude.{
  Bool, List, List-eq, Option, Option-eq, String, String-eq, [], drop, false, if◌then◌else◌,
  is_some, leb, length, ltb, map, none, not, some, take, true, ℕ, ℕ-eq, ◌&&◌, ◌++◌, ◌-◌, ◌==◌, ◌||◌,
  ◌∷◌,
}
use arandu_whatsapp.Prelude.Text.{Text, Unicode, codes, len, trim_space}

-- What the service reads of a types.Instance.
pub record Item : Type 0 where
  pub id : ℕ
  pub name : String
  pub status : InstanceStatus
  pub connection_status : ConnectionStatus
  pub whatsapp_device_jid : Option String
  pub whatsapp_owner_jid : Option String
  pub owner_jid : Option String

-- What a client of whatsmeow answers: Connect, Logout, where `not_logged_in` is
-- whatsmeow.ErrNotLoggedIn, Store.Delete, and the two forms of Store.ID, if there is one.
pub data LogoutAnswer : Type 0 where
  logged_out_remotely not_logged_in : LogoutAnswer
  logout_failed : Error → LogoutAnswer

pub record DeviceId : Type 0 where
  pub device_jid : String
  pub non_ad_jid : String

pub record WhatsAppClient : Type 0 where
  pub is_connected : Bool
  pub is_logged_in : Bool
  pub store_id : Option DeviceId
  pub connect : Option Error
  pub logout : LogoutAnswer
  pub delete_store : Option Error

-- The registry of the process and the database.
pub record World : Type 0 where
  pub hub : Hub
  pub db : Db

-- managedConnectionStatus; a nil client is `none`
unfoldable pub managed_connection_status : Option WhatsAppClient → ConnectionStatus
managed_connection_status none = ConnectionStatus.session_missing
managed_connection_status (some c) =
    if not (is_some c.store_id)
    then ConnectionStatus.session_missing
    else if c.is_connected && c.is_logged_in
    then ConnectionStatus.online
    else ConnectionStatus.disconnected

-- The states that apiState returns.
pub data ApiState : Type 0 where
  api_logged_out api_open api_connecting api_close : ApiState

abbrev pub is_logged_out : ConnectionStatus → Bool
is_logged_out logged_out = true
is_logged_out ConnectionStatus.session_missing = true
is_logged_out _ = false

abbrev pub is_connecting : ConnectionStatus → Bool
is_connecting connecting = true
is_connecting qr_code = true
is_connecting pairing_code = true
is_connecting pairing = true
is_connecting reconnecting = true
is_connecting _ = false

-- apiState
unfoldable pub api_state : ConnectionStatus → Bool → Bool → Bool → ApiState
api_state status connected logged_in has_device =
    if is_logged_out status
    then api_logged_out
    else if connected && logged_in && has_device
    then api_open
    else if is_connecting status
    then api_connecting
    else api_close

-- ConnectionState: the state and its reason, given the hub's client, if it has one
unfoldable pub connection_state : Item → Option WhatsAppClient → ApiState × ℕ
unfolding api_state
connection_state item none = (api_close, 503)
connection_state item (some c) =
    let state =
      api_state item.connection_status c.is_connected c.is_logged_in (is_some c.store_id) in
    (state, elim state [ api_close ↦ 503 | _ ↦ 200 ])

module _ (unicode : Unicode) where
  -- *jid != nil && strings.TrimSpace(*jid) != "" && *jid != actual
  abbrev pub differs : Option String → String → Bool
  differs none actual = false
  differs (some jid) actual = not (trim_space unicode (codes jid) == []) && not (jid == actual)

  -- validateManagedDevice; the copies of the ids in the managed client are left out.
  unfoldable pub validate_managed_device : Item → Option WhatsAppClient → Option Error
  validate_managed_device item none = none
  validate_managed_device item (some c) = elim c.store_id [
    | none ↦ none
    | some d ↦
        if differs item.whatsapp_device_jid d.device_jid
          || differs item.whatsapp_owner_jid d.non_ad_jid
          || differs item.owner_jid d.non_ad_jid
        then some (sentinel device_mismatch)
        else none
  ]

  -- The runes that NormalizePhoneNumber keeps.
  abbrev pub digits_of : Text → Text
  digits_of [] = []
  digits_of (r ∷ s) = if unicode.is_digit r then r ∷ digits_of s else digits_of s

  -- strings.HasPrefix(phone, "0")
  abbrev pub starts_with_zero : Text → Bool
  starts_with_zero [] = false
  starts_with_zero (r ∷ s) = r == b'0'

  -- NormalizePhoneNumber
  unfoldable pub normalize_phone_number : Text → Result Text
  normalize_phone_number value =
      let phone = digits_of (trim_space unicode value) in
      if ltb (len phone) 8 || starts_with_zero phone then fail invalid_phone_number else ok phone

-- MaskPhone, on the bytes of the phone number
unfoldable pub mask_phone : List ℕ → List ℕ
mask_phone phone =
    if leb (length phone) 4
    then codes "****"
    else map (λ c. b'*') (take (length phone - 4) phone) ++ drop (length phone - 4) phone
