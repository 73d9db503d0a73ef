-- ===== src/Http/Message.antt =====
-- apps/mail-server/include/mail_server/Common.h: requests and responses as Boost.Beast gives and takes
-- them, with the header fields that the server looks at. A status is its number.
use mail_server_client.Base.{ℕ, Bool, Option, [], ◌∷◌, Bytes, codes, length}
use mail_server_client.Http.Json.{Json, JsonText, text, object, fields_of}

pub data Verb : Type 0 where
  get post : Verb
  other : ℕ → Verb

-- `user_email` is the value of X-User-Email.
pub record Request : Type 0 where
  pub method : Verb
  pub target : Bytes
  pub version : ℕ
  pub keep_alive : Bool
  pub user_email : Option Bytes
  pub body : Bytes

pub record Response : Type 0 where
  pub status : ℕ
  pub version : ℕ
  pub server : Bytes
  pub content_type : Bytes
  pub keep_alive : Bool
  pub content_length : ℕ
  pub body : Bytes

module _ (json : JsonText) where
  unfoldable pub make_json_response : Request → ℕ → Json → Response
  make_json_response request status body = record {
    status = status;
    version = request.version;
    server = codes "boost-beast";
    content_type = codes "application/json";
    keep_alive = request.keep_alive;
    content_length = length (json.serialize body);
    body = json.serialize body;
  }

  unfoldable pub make_error : Request → ℕ → Bytes → Response
  unfolding make_json_response
  make_error request status message =
      make_json_response request status (object (fields_of ((codes "error", text message) ∷ [])))
