-- ===== src/Client/Curl.antt =====
-- libcurl, as far as the clients use it: what is set on a handle, and what a transfer brings.
use ai_chat_server.Base.{ℕ, Bool, Option, Bytes, List}

pub data Verb : Type 0 where
  get post : Verb
  custom : (name : Bytes) → Verb

pub record Transfer : Type 0 where
  pub url : Bytes
  pub headers : List Bytes
  pub verb : Verb
  pub fields : Option Bytes
  pub fail_on_error : Bool

-- The pieces handed to the write function, the error text unless the result is CURLE_OK, and the
-- response code.
pub record Outcome : Type 0 where
  pub chunks : List Bytes
  pub error : Option Bytes
  pub status : ℕ

-- `none` where curl_easy_init gives no handle.
abbrev pub Curl : Type 0
Curl = Option (Transfer → Outcome)
