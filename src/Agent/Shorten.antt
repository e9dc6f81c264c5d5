-- ===== src/Agent/Shorten.antt =====
-- How long the conversation of agent_framework/loop.py is after a compaction.
use serac.Common.{
  ◌-◌, ◌≤◌, ◌≡◌, ◌⊎◌, inl, inr, ◌∷◌, [], Bool, true, false, if◌then◌else◌, String, refl, List,
  Option, none, some, arith, length, length-append, length-drop,
}
use serac.Agent.{Message, World, LoopState, system, Reply, answers, throws}
use serac.Agent.Compact.{
  first_system, last_user, only_if, is_user, is_system, hard_truncate, compacted, self_compact,
}

length-only_if : (p : Message → Bool) (m : Message) → length (only_if p m) ≤ 1
length-only_if p m = ground arith

length-first_system : (ms : List Message) → length (first_system ms) ≤ 1
length-first_system [] = omega arith
length-first_system (m ∷ ms) = length-only_if is_system m

length-last_user : (ms : List Message) → length (last_user ms) ≤ 1
length-last_user [] = omega arith
length-last_user (m ∷ []) = length-only_if is_user m
length-last_user (m ∷ n ∷ ms) = length-last_user (n ∷ ms)

length-hard_truncate : (ms : List Message) → length (hard_truncate ms) ≤ 11
unfolding hard_truncate
length-hard_truncate ms = rw (length-append, length-drop) (omega (arith, length-first_system ms))

compacted-short :
    (r : Reply) (ms : List Message) → (compacted r ms ≡ ms) ⊎ (length (compacted r ms) ≤ 3)
unfolding compacted
compacted-short (throws e) ms = inl refl
compacted-short (answers resp) ms =
    inr (rw length-append (omega (arith, length-first_system ms, length-last_user ms)))

-- A compaction leaves at most three messages where a summary was given and at most eleven where the
-- history was truncated; where the provider raises, it leaves the conversation as it was.
pub self_compact-short :
    (w : World) (history : Option String) (s : LoopState)
    → let after = (self_compact w history s).messages in
      (after ≡ s.messages)
      ⊎ (length after ≤ (if (elim history [ some _ ↦ true | none ↦ false ]) then 3 else 11))
unfolding self_compact
self_compact-short w none s = inr (length-hard_truncate s.messages)
self_compact-short w (some history) s = compacted-short _ s.messages

-- A conversation of at most ten messages that starts with a system message grows by a truncation:
-- its system message then stands twice at its start.
pub hard_truncate-repeats :
    (m : Message) (rest : List Message)
    → m.role ≡ system
    → length (m ∷ rest) ≤ 10
    → hard_truncate (m ∷ rest) ≡ m ∷ m ∷ rest
unfolding hard_truncate
hard_truncate-repeats m rest r h = rw (is_first, none_dropped) refl
  where
    is_first : only_if is_system m ≡ m ∷ []
    is_first = rw r refl

    none_dropped : length (m ∷ rest) - 10 ≡ 0
    none_dropped = omega (arith, h)
