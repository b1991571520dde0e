-- ===== src/Security/Base64.antt =====
-- The `STANDARD` engine of the crate base64, a parameter of all that writes keys as text.
use antarloka.Prelude.{Option}
use antarloka.Text.{Str, Bytes}

pub record Base64 : Type 0 where
  pub to_text : Bytes → Str
  pub from_text : Str → Option Bytes
