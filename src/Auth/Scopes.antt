-- ===== src/Auth/Scopes.antt =====
-- Who passes `require_scope` of src/sprinter/auth.py.
use sprinter_oss.Prelude.{String, string_eq}
use Prim.Native.String.{◌++◌ as ◌⧺◌}
