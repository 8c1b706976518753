-- ===== src/Network/Message.antt =====
-- HttpMessage of src/core/network/MGDFHttpClient.hpp.
use mgdf.Prelude.Int.{ℤ}
use mgdf.Prelude.{List, Text}

pub record HttpMessage : Type 0 where
  pub code : ℤ
  pub url : Text
  pub body : Text
  pub method : Text
  pub error : Text
  pub headers : List (Text × Text)
