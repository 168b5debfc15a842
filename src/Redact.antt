-- ===== src/Redact.antt =====
-- src/redact.rs: the wrapper that keeps a secret out of `Debug` output.
use wrest.Prelude.Text.{Text, codes}

-- `Redacted<String>`; the source has it generic.
pub record Redacted : Type 0 where
  pub expose : Text

-- The `Debug` output: the quotes are part of it.
unfoldable pub debug : Redacted → Text
debug r = codes "\"<redacted>\""
