-- ===== src/Clients/Adx/Tables.antt =====
-- What a query that src/sprinter/integrations/adx.py sends begins with and does not hold.
use sprinter_oss.Prelude.{◌≡◌, String, Bool, true, false, some, string_eq}
use Prim.Native.Char.{Char}
use Prim.Native.String.{◌++◌ as ◌⧺◌}
use sprinter_oss.Config.{Settings}
use sprinter_oss.Clients.Adx.{has_semicolon, is_write, table_of, is_allowed_table}

-- A query of one read-only statement on an allowed table.
pub record IsAllowed (is_word : Char → Bool) (settings : Settings) (clean : String) : Type 0 where
  pub one : has_semicolon clean ≡ false
  pub reads : is_write is_word clean ≡ false
  pub table : String
  pub begins : table_of clean ≡ some table
  pub allowed : is_allowed_table settings table ≡ true
