-- ===== src/Session/Ids.antt =====
-- The ids of sessions, _SESSION_ID_RE of agent_framework/session.py.
use Prim.Native.String.{String, [], ◌∷◌, count}
use Prim.Native.Char.{code}
use serac.Common.{ℕ, Bool, false, ◌&&◌, ◌||◌, ltb, leb}
use serac.Tools.Names.{is_letter, are_name_chars}

-- [A-Za-z0-9]
abbrev pub is_alphanumeric : ℕ → Bool
is_alphanumeric c = is_letter c || leb 48 c && leb c 57

unfoldable pub is_session_id : String → Bool
is_session_id [] = false
is_session_id (c ∷ s) = is_alphanumeric (code c) && are_name_chars s && ltb (count s) 64
