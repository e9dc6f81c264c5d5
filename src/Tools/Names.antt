-- ===== src/Tools/Names.antt =====
-- The names of tools, _TOOL_NAME_RE of agent_framework/tools.py.
use Prim.Native.String.{String, [], ◌∷◌, count}
use Prim.Native.Char.{code}
use serac.Common.{ℕ, Bool, true, false, ◌&&◌, ◌||◌, ltb, leb, nat_beq}

abbrev pub is_letter : ℕ → Bool
is_letter c = leb 65 c && leb c 90 || leb 97 c && leb c 122

-- [A-Za-z0-9_-]
abbrev pub is_name_char : ℕ → Bool
is_name_char c = is_letter c || leb 48 c && leb c 57 || nat_beq c 95 || nat_beq c 45

unfoldable pub are_name_chars : String → Bool
are_name_chars [] = true
are_name_chars (c ∷ s) = is_name_char (code c) && are_name_chars s

-- _TOOL_NAME_RE.fullmatch
unfoldable pub is_tool_name : String → Bool
is_tool_name [] = false
is_tool_name (c ∷ s) = is_letter (code c) && are_name_chars s && ltb (count s) 64
