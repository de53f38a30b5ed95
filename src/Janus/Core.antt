-- ===== src/Janus/Core.antt =====
-- What janus/src/pjanus.c takes from the parts of Janus that the repository does not hold: the checks
-- of a request's elements, the tokens, the plugins and the ICE agent. `attach_error`, `destroy_error`
-- are the numbers that the agent returns, `new_handle` the identifier of the handle that it makes.
use kore_io_websocket.Base.{ℕ, ◌≡◌, Bool, String, Option, none, some}
use kore_io_websocket.Soup.Jansson.{Jansson}
use kore_io_websocket.Janus.{Reply, World}

-- A string member of an object; `none` is the NULL that `json_string_value` gives otherwise.
abbrev pub text_at : (J : Jansson) → J.Json → String → Option String
text_at J j k = elim (J.object_get j k) [ none ↦ none | some v ↦ J.string_value v ]

abbrev pub integer_at : (J : Jansson) → J.Json → String → Option ℕ
integer_at J j k = elim (J.object_get j k) [ none ↦ none | some v ↦ J.integer_value v ]

pub record Core (J : Jansson) : Type 0 where
  -- json_dumpb: `none` where it gives 0
  pub dumps : Reply → Option String
  -- JANUS_VALIDATE_JSON_OBJECT with incoming_request_parameters and with attach_parameters: the code
  -- and the text of an error, if there is one
  pub request_error : J.Json → Option (ℕ × String)
  pub attach_error_of : J.Json → Option (ℕ × String)
  pub strcasecmp_eq : String → String → Bool
  pub accept_new_sessions : Bool
  pub api_secret : Option String
  pub same_secret : String → String → Bool
  pub auth_is_enabled : Bool
  pub check_token : String → Bool
  pub check_plugin : String → String → Bool
  pub has_plugin : Option String → Bool
  pub new_handle : World → ℕ → Option ℕ
  pub attach_error : World → ℕ → ℕ
  pub destroy_error : World → ℕ → ℕ
  -- handle->app and handle->app_handle are there
  pub has_app : World → ℕ → Bool
  -- A request that passes the check has the two texts that the parameters require.
  pub has_transaction :
      (j : J.Json) → request_error j ≡ none → (t : String) × (text_at J j "transaction" ≡ some t)
  pub has_janus :
      (j : J.Json) → request_error j ≡ none → (t : String) × (text_at J j "janus" ≡ some t)
