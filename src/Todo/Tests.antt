-- ===== src/Todo/Tests.antt =====
-- Runs of todo_backends.py and todo.py at concrete lists, and the theorems at inputs that meet their
-- hypotheses. The times are numbers.
use mathlib.Core.List.{Perm}
use serac.Common.{◌≡◌, ◌∷◌, [], ℕ, zero, suc, String, some, none, map, refl, All, text_key}
use serac.Common.Dict
use serac.Todo.{TodoItem, to_dict, is_valid_status, id_map, picked, from_dicts}
use serac.Todo.File
use serac.Todo.File.{FileTodoStore, stored, arranged}
use serac.Todo.Memory
use serac.Todo.Memory.{MemoryTodoStore, update_items, assigned, reordered, append_unlisted}
use serac.Todo.Perm.{arranged-perm}
use serac.Todo.Refine.{IsStorable, read-write, Shows}
use serac.Todo.Steps.{items, updates, reorders, file_step, memory_step, file_step-refines}
use serac.Todo.Executor.{list_text, new_item, todo_executor}

abbrev uuid : ℕ → String
uuid zero = "u0"
uuid (suc n) = "u1"

abbrev tests : TodoItem
tests = record { id = "a"; content = "write tests"; status = "pending" }

abbrev docs : TodoItem
docs = record { id = "b"; content = "write docs"; status = "in_progress" }

abbrev release : TodoItem
release = record { id = "c"; content = "release"; status = "completed" }

abbrev three : MemoryTodoStore ℕ
three = record { items = tests ∷ docs ∷ release ∷ []; created_at = 5; drawn = 0 }

abbrev saved : FileTodoStore ℕ
saved = record {
  file = stored (record {
    items = some (map to_dict (tests ∷ docs ∷ release ∷ []));
    created_at = some 5;
    updated_at = none;
  });
  drawn = 0;
}

program : Unit {0}
unfolding file_step memory_step File.read File.write File.read_raw File.add_item File.update_item
    File.delete_item File.reorder File.clear_completed File.saved File.edit_items File.arranged
    from_dicts to_dict is_valid_status id_map picked Dict.get Dict.put todo_executor list_text
    new_item
program = tt

storable : All IsStorable (tests ∷ docs ∷ release ∷ [])
unfolding program
storable = ((refl, refl), ((refl, refl), ((refl, refl), tt)))

saved-Shows : Shows uuid saved three
saved-Shows = record { meta = _; at = refl; same = refl; fit = storable; draws = refl }

reorder_run :
    (file_step uuid 9 (reorders ("c" ∷ "x" ∷ "a" ∷ [])) saved).0
    ≡ items (release ∷ tests ∷ docs ∷ [])
unfolding program
reorder_run = refl

-- Behind a reorder that names an id twice, the list holds one object twice, and an update changes both.
changed_twice :
    (memory_step uuid
      (updates "a" (some "new") none)
      (memory_step uuid
        (reorders ("a" ∷ "a" ∷ []))
        (record three { items = tests ∷ [] })).1).1.items
    ≡ record tests { content = "new" } ∷ record tests { content = "new" } ∷ []
unfolding program update_items assigned reordered append_unlisted Memory.update_item Memory.reorder
changed_twice = refl

file_step-refines_example :
    ((file_step uuid 9 (updates "b" none (some "completed")) saved).0
      ≡ (memory_step uuid (updates "b" none (some "completed")) three).0)
    × Shows uuid
        (file_step uuid 9 (updates "b" none (some "completed")) saved).1
        (memory_step uuid (updates "b" none (some "completed")) three).1
unfolding program
file_step-refines_example =
    file_step-refines uuid 9 (updates "b" none (some "completed")) saved three saved-Shows
      (refl, (refl, (refl, (refl, tt))))

arranged-perm_example :
    Perm (arranged ("c" ∷ "a" ∷ []) (tests ∷ docs ∷ release ∷ [])) (tests ∷ docs ∷ release ∷ [])
arranged-perm_example =
    arranged-perm ("c" ∷ "a" ∷ []) (tests ∷ docs ∷ release ∷ []) (refl, (refl, (refl, tt)))
      (refl, (refl, tt))

read-write_example :
    (File.read uuid (File.write 9 (docs ∷ tests ∷ []) saved) 10
      ≡ (docs ∷ tests ∷ [], File.write 9 (docs ∷ tests ∷ []) saved))
    × ((File.read_raw 10 (File.write 9 (docs ∷ tests ∷ []) saved).file).created_at
        ≡ (File.read_raw 9 saved.file).created_at)
read-write_example = read-write uuid 9 10 (docs ∷ tests ∷ []) saved (storable.1.0, (storable.0, tt))
