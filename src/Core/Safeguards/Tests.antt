-- ===== src/Core/Safeguards/Tests.antt =====
-- Runs of the guard of core/safeguards.py on small inputs.
use vishwakarma.Prelude.{number_equality, ℕ, String, ◌≡◌, refl, true, none, some, []}
use vishwakarma.Core.Models.{ToolOutput, success}
use vishwakarma.Core.Safeguards.{too_many, new_guard, count_of, is_allowed}
use vishwakarma.Prelude.Dict

abbrev digest : String → ℕ → String
digest name p = name

abbrev listed : ToolOutput ℕ
listed = record {
  tool_call_id = "1";
  tool_name = "bash";
  description = "";
  status = success;
  output = some "ok";
  error = none;
  invocation = "";
  token_count = 0;
  params = 7;
}

is_allowed_twice :
    (is_allowed true digest (is_allowed true digest (new_guard 1) "bash" 7 []).0 "bash" 7 []).1
    ≡ too_many "bash" 2
unfolding is_allowed new_guard count_of Dict.get Dict.put
is_allowed_twice = refl
