-- ===== src/Cloud/Send.antt =====
-- `_build_packet` and `send_command`, and the routing that `__init__` chooses
-- (custom_components/delonghi_coffee/api.py). The server is a function from a request to its answer.
pub mod Laws
use delonghi_ha.Prelude.{
  ℕ, ◌/◌, ◌%◌, ◌^◌, List, [], ◌∷◌, ◌++◌, Bool, true, false, not, ◌||◌, ◌==◌, String, Option, none,
  some, if◌then◌else◌,
}
use text.Mathlib.Text.{starts_with}
use delonghi_ha.Prelude.Raise.{Result, ok, raise, api, unsupported}

pub data CmdProperty : Type 0 where
  data_request app_data_request : CmdProperty

-- What a POST gives: a status, or a `requests.RequestException`.
pub data Reply : Type 0 where
  status : ℕ → Reply
  request_exception : Reply

-- One entry of `attempts`: the property, and `include_app_id`.
pub record Attempt : Type 0 where
  pub prop_name : CmdProperty
  pub include_app_id : Bool

-- The property and the bytes before base64.
pub record Request : Type 0 where
  pub to : CmdProperty
  pub packet : List ℕ

abbrev pub app_signature : List ℕ
app_signature = 0x20 ∷ 0x40 ∷ 0x35 ∷ 0xEF ∷ []

-- `struct.pack(">I", now)`
unfoldable pub timestamp : ℕ → List ℕ
timestamp now = now / 2 ^ 24 % 256 ∷ now / 2 ^ 16 % 256 ∷ now / 2 ^ 8 % 256 ∷ now % 256 ∷ []

unfoldable pub build_packet : List ℕ → ℕ → Bool → List ℕ
build_packet ecam now include_app_id =
    if include_app_id then ecam ++ (timestamp now ++ app_signature) else ecam ++ timestamp now

abbrev pub attempt : CmdProperty → Bool → Attempt
attempt prop app = record { prop_name = prop; include_app_id = app }

unfoldable pub attempts_for : Option CmdProperty → List Attempt
attempts_for (some data_request) = attempt data_request false ∷ attempt data_request true ∷ []
attempts_for (some app_data_request) = attempt app_data_request true ∷ []
attempts_for none =
    attempt app_data_request true ∷ attempt data_request false ∷ attempt data_request true ∷ []

abbrev pub same_property : CmdProperty → CmdProperty → Bool
same_property data_request data_request = true
same_property app_data_request app_data_request = true
same_property data_request app_data_request = false
same_property app_data_request data_request = false

-- `any(p == prop_name for p, _ in ...)`
unfoldable pub listed : CmdProperty → List Attempt → Bool
listed prop [] = false
listed prop (a ∷ rest) = same_property a.prop_name prop || listed prop rest

-- The variables of the loop, `_cmd_property`, and the requests sent so far.
pub record Progress : Type 0 where
  pub sent_any : Bool
  pub last_error : Bool
  pub cmd_property : Option CmdProperty
  pub requests : List Request

-- What a 404 does to `_cmd_property`.
unfoldable pub learn : CmdProperty → Option CmdProperty → Option CmdProperty
learn app_data_request none = some data_request
learn app_data_request (some known) = some known
learn data_request cached = cached

-- After the loop.
abbrev pub verdict : Progress → Result Bool
verdict p = if p.sent_any then ok true else if p.last_error then raise api else raise unsupported

-- One answer. The last argument is the rest of the loop.
unfoldable pub answered :
    Reply
    → CmdProperty
    → List Attempt
    → Progress
    → (Progress → Result Bool × Progress)
    → Result Bool × Progress
answered request_exception prop rest p continue = continue (record p { last_error = true })
answered (status code) prop rest p continue =
    if code == 201
    then (if listed prop rest then continue (record p { sent_any = true }) else (ok true, p))
    else if code == 404
    then continue (record p { cmd_property = learn prop p.cmd_property })
    else continue (record p { last_error = true })

module _ (post : Request → Reply) (ecam : List ℕ) (now : ℕ) where
  abbrev pub request_of : Attempt → Request
  request_of a = record { to = a.prop_name; packet = build_packet ecam now a.include_app_id }

  unfoldable pub send_loop : List Attempt → Progress → Result Bool × Progress
  send_loop [] p = (verdict p, p)
  send_loop (a ∷ rest) p =
      answered (post (request_of a)) a.prop_name rest
        (record p { requests = p.requests ++ (request_of a ∷ []) }) (λ q. send_loop rest q)

  -- The body of `send_command`, once `_headers` has a token.
  unfoldable pub send_command : Option CmdProperty → Result Bool × Progress
  send_command cached =
      send_loop (attempts_for cached)
        (record { sent_any = false; last_error = false; cmd_property = cached; requests = [] })

-- What `__init__` caches for a model.
unfoldable pub routing : String → Option CmdProperty
routing oem_model =
    if starts_with oem_model "DL-pd-" || starts_with oem_model "DL-millcore"
    then some data_request
    else if starts_with oem_model "DL-striker-"
    then some app_data_request
    else none
